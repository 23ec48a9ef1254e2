-- ===== src/Data/Topics/Settled.antt =====
-- The promises of `request` over any run of requests, timeouts and messages.
use ninja_vst3_plugin.Prelude.{
  ℕ, suc, ◌+◌, ◌≤◌, ◌≡◌, String, Bool, true, false, List, [], ◌∷◌, ◌++◌, arith, eq_iff, str_eq,
  if◌then◌else◌,
}
use ninja_vst3_plugin.Prelude.Table.{set, has, get-set, get-delete}
use ninja_vst3_plugin.Prelude.Members.{
  contains, add_member, contains-add_member, contains-drop_member,
}
use ninja_vst3_plugin.Data.Topics.{
  Incoming, malformed, Messaging, Settlement, requested, responded, subscribed, unsubscribed,
  channel_message, other, settlement_of, request, request_timed_out, handle_message,
}

-- How often a request's promise has settled.
unfoldable pub settlements : String → List (String × Settlement) → ℕ
settlements id [] = 0
settlements id ((other_id, _) ∷ l) =
    let rest = settlements id l in if str_eq other_id id then suc rest else rest

-- What happens to the requests: one is made, a timeout fires, a message comes.
pub data Happening : Type 0 where
  made : String → ℕ → Bool → Happening
  late : String → Happening
  heard : Incoming → String → Happening

unfoldable pub happen : Happening → Messaging → Messaging
happen (made id timeout success) s = request id timeout success s
happen (late id) s = request_timed_out id s
happen (heard message uuid) s = handle_message message uuid s

unfoldable pub happen_all : List Happening → Messaging → Messaging
happen_all [] s = s
happen_all (h ∷ hs) s = happen_all hs (happen h s)

-- How often a run makes the request.
unfoldable pub times_made : String → List Happening → ℕ
times_made id [] = 0
times_made id (made other_id _ _ ∷ hs) =
    let rest = times_made id hs in if str_eq other_id id then suc rest else rest
times_made id (late _ ∷ hs) = times_made id hs
times_made id (heard _ _ ∷ hs) = times_made id hs

abbrev count : Bool → ℕ
count true = 1
count false = 0

abbrev made_now : String → Happening → ℕ
made_now id (made other_id _ _) = count (str_eq other_id id)
made_now id (late _) = 0
made_now id (heard _ _) = 0

settlements-append :
    (id other_id : String) (how : Settlement) (l : List (String × Settlement))
    → settlements id (l ++ ((other_id, how) ∷ [])) ≡ settlements id l + count (str_eq other_id id)
unfolding settlements
settlements-append id other_id how [] = ground arith
settlements-append id other_id how ((j, _) ∷ l) =
    ground (arith, settlements-append id other_id how l)

module _ (id : String) where
  abbrev pub promised : Messaging → ℕ
  promised s = settlements id s.settled + count (has id s.pending)

  abbrev pub InStep : Messaging → Type 0
  InStep s = contains id s.armed ≡ has id s.pending

  message_lem :
      (message : Incoming) (uuid : String) (s : Messaging)
      → InStep s
      → count (has id s.pending) ≤ 1
      → (promised (handle_message message uuid s) ≡ promised s + 0)
        × (count (has id (handle_message message uuid s).pending) ≤ count (has id s.pending) + 0)
        × InStep (handle_message message uuid s)
  unfolding handle_message
  message_lem (responded other_id reply) uuid s same once = ground (
    arith,
    get-delete other_id id s.pending,
    contains-drop_member other_id id s.armed,
    settlements-append id other_id (settlement_of reply) s.settled,
    eq_iff other_id id,
  )
  message_lem (requested request_type _ _) uuid s same once = ground arith
  message_lem (subscribed _) uuid s same once = ground arith
  message_lem (unsubscribed _) uuid s same once = ground arith
  message_lem (channel_message topic _) uuid s same once = ground arith
  message_lem malformed uuid s same once = ground arith
  message_lem (other _) uuid s same once = ground arith

  -- One happening: its effect on the promise, on its waiting, and on the timeout.
  happen_lem :
      (h : Happening) (s : Messaging)
      → InStep s
      → made_now id h + count (has id s.pending) ≤ 1
      → (promised (happen h s) ≡ promised s + made_now id h)
        × (count (has id (happen h s).pending) ≤ count (has id s.pending) + made_now id h)
        × InStep (happen h s)
  unfolding happen request request_timed_out
  happen_lem (made other_id timeout true) s same once =
      ground (arith, get-set other_id id timeout s.pending, contains-add_member other_id id s.armed)
  happen_lem (made other_id timeout false) s same once = ground (
    arith,
    get-set other_id id timeout s.pending,
    get-delete other_id id (set other_id timeout s.pending),
    contains-add_member other_id id s.armed,
    contains-drop_member other_id id (add_member other_id s.armed),
    settlements-append id other_id Settlement.not_sent s.settled,
    eq_iff other_id id,
  )
  happen_lem (late other_id) s same once = ground (
    arith,
    get-delete other_id id s.pending,
    contains-drop_member other_id id s.armed,
    settlements-append id other_id Settlement.timed_out s.settled,
    eq_iff other_id id,
  )
  happen_lem (heard message uuid) s same once = message_lem message uuid s same (ground arith)

  -- If the request is made at most once in a run, and not while its promise waits, and its timeout
  -- runs as long as the promise waits, then the promise has, with the run, settled or started to wait
  -- exactly as often as it was made.
  pub promised-happen_all :
      (hs : List Happening) (s : Messaging)
      → InStep s
      → times_made id hs + count (has id s.pending) ≤ 1
      → promised (happen_all hs s) ≡ promised s + times_made id hs
  unfolding happen_all times_made
  promised-happen_all [] s same once = ground arith
  promised-happen_all (made other_id timeout success ∷ hs) s same once =
      let (exact, bound, kept) = happen_lem (made other_id timeout success) s same (ground arith) in
      ground (
        arith,
        promised-happen_all hs (happen (made other_id timeout success) s) kept (ground arith),
      )
  promised-happen_all (late other_id ∷ hs) s same once =
      let (exact, bound, kept) = happen_lem (late other_id) s same (ground arith) in
      ground (arith, promised-happen_all hs (happen (late other_id) s) kept (ground arith))
  promised-happen_all (heard m uuid ∷ hs) s same once =
      let (exact, bound, kept) = happen_lem (heard m uuid) s same (ground arith) in
      ground (arith, promised-happen_all hs (happen (heard m uuid) s) kept (ground arith))
