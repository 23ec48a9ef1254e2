-- ===== src/Data/Send/Once.antt =====
-- No channel gets a message twice.
use ninja_vst3_plugin.Prelude.{
  ℕ, ◌≡◌, refl, sym, ◌∙◌, ◌⊎◌, inl, inr, String, Bool, true, false, ◌&&◌, Option, none, some, List,
  [], ◌∷◌, ◌++◌, arith, if_rule,
}
use mathlib.Core.List.{append-nil}
use ninja_vst3_plugin.Prelude.Table.{get}
use ninja_vst3_plugin.Peer.Lookup.{get_connections}
use ninja_vst3_plugin.Peer.Types.{Kind, Message, Pair, Sdk}
use ninja_vst3_plugin.Data.Send.{
  Preference, only_publisher, only_viewer, any_side, all_sides, unset, unknown, Progress, is_done,
  try_connection, else_try, any_of_pair, send_to_pair, send_to_group, send_to_groups, send_to_each,
  send_filtered, send_named, over_channels, group, can_fall_back, with_fallback, send_data_internal,
  Sent,
}

abbrev pub outbox_of : Sdk → ℕ → List Message
outbox_of s c = elim (s.objects c).data_channel [ none ↦ [] | some channel ↦ channel.outbox ]

abbrev pub copies : Message → Bool → List Message
copies m true = m ∷ []
copies m false = []

-- Since the state `s` each channel got the message exactly if it is marked as done.
abbrev pub Once : Message → Sdk → Progress → ℕ → Type 0
Once m s p c = outbox_of p.sdk c ≡ outbox_of s c ++ copies m (is_done c p)

try_connection-Once :
    (m : Message) (s : Sdk) (o : Option ℕ) (p : Progress) (c : ℕ)
    → Once m s p c
    → Once m s (try_connection m o p).1 c
unfolding try_connection
try_connection-Once m s none p c h = h
try_connection-Once m s (some d) p c h = ground (arith, h, append-nil (outbox_of s c))

module _ (m : Message) (s : Sdk) (c : ℕ) where
  else_try-Once :
      (o : Option ℕ) (r : Bool × Progress) → Once m s r.1 c → Once m s (else_try m o r) c
  else_try-Once o (true, p) h = h
  else_try-Once o (false, p) h = try_connection-Once m s o p c h

  any_of_pair-Once : (pair : Pair) (p : Progress) → Once m s p c → Once m s (any_of_pair m pair p) c
  any_of_pair-Once pair p h =
      else_try-Once pair.viewer_side (try_connection m pair.publisher_side p)
        (try_connection-Once m s pair.publisher_side p c h)

  send_to_pair-Once :
      (preference : Preference) (pair : Pair) (p : Progress)
      → Once m s p c
      → Once m s (send_to_pair m preference pair p) c
  unfolding send_to_pair
  send_to_pair-Once only_publisher pair p h = try_connection-Once m s pair.publisher_side p c h
  send_to_pair-Once only_viewer pair p h = try_connection-Once m s pair.viewer_side p c h
  send_to_pair-Once any_side pair p h = any_of_pair-Once pair p h
  send_to_pair-Once all_sides pair p h =
      try_connection-Once m s pair.viewer_side (try_connection m pair.publisher_side p).1 c
        (try_connection-Once m s pair.publisher_side p c h)
  send_to_pair-Once unset pair p h = h
  send_to_pair-Once unknown pair p h = h

  send_to_group-Once :
      (preference : Preference) (pair : Pair) (p : Progress)
      → Once m s p c
      → Once m s (send_to_group m preference pair p) c
  unfolding send_to_group
  send_to_group-Once only_publisher pair p h = try_connection-Once m s pair.publisher_side p c h
  send_to_group-Once only_viewer pair p h = try_connection-Once m s pair.viewer_side p c h
  send_to_group-Once any_side pair p h = any_of_pair-Once pair p h
  send_to_group-Once unset pair p h = any_of_pair-Once pair p h
  send_to_group-Once all_sides pair p h = h
  send_to_group-Once unknown pair p h = h

  send_to_groups-Once :
      (preference : Preference) (groups : List (String × Pair)) (p : Progress)
      → Once m s p c
      → Once m s (send_to_groups m preference groups p) c
  unfolding send_to_groups
  send_to_groups-Once preference [] p h = h
  send_to_groups-Once preference ((uuid, pair) ∷ rest) p h =
      send_to_groups-Once preference rest (send_to_group m preference pair p)
        (send_to_group-Once preference pair p h)

  send_to_each-Once : (cs : List ℕ) (p : Progress) → Once m s p c → Once m s (send_to_each m cs p) c
  unfolding send_to_each
  send_to_each-Once [] p h = h
  send_to_each-Once (d ∷ ds) p h =
      send_to_each-Once ds (try_connection m (some d) p).1 (try_connection-Once m s (some d) p c h)

  send_filtered-Once :
      (preference : Preference) (cs : List ℕ) (p : Progress)
      → Once m s p c
      → Once m s (send_filtered m preference cs p) c
  send_filtered-Once all_sides cs p h = send_to_each-Once cs p h
  send_filtered-Once preference cs p h = send_to_groups-Once preference (group cs p.sdk []) p h

  send_named-Once :
      (preference : Preference) (o : Option Pair) (p : Progress)
      → Once m s p c
      → Once m s (send_named m preference o p) c
  send_named-Once preference none p h = h
  send_named-Once preference (some pair) p h = send_to_pair-Once preference pair p h

  over_channels-Once :
      (uuid : Option String) (type : Option Kind) (preference : Preference) (p : Progress)
      → Once m s p c
      → Once m s (over_channels m uuid type preference p) c
  unfolding over_channels
  over_channels-Once (some uuid) none preference p h =
      send_named-Once preference (get uuid p.sdk.connections) p h
  over_channels-Once uuid type preference p h =
      send_filtered-Once preference (get_connections uuid type none p.sdk) p h

abbrev pub AtMostOnce : Message → Sdk → ℕ → Sent → Type 0
AtMostOnce m s c r =
    ((outbox_of r.sdk c ≡ outbox_of s c) ⊎ (outbox_of r.sdk c ≡ outbox_of s c ++ m ∷ []))
    × ((r.fallbacks ≡ []) ⊎ (outbox_of r.sdk c ≡ outbox_of s c))

copies_cases :
    (m : Message) (b : Bool) (before after : List Message)
    → after ≡ before ++ copies m b
    → (after ≡ before) ⊎ (after ≡ before ++ m ∷ [])
copies_cases m true before after e = inr e
copies_cases m false before after e = inl (e ∙ append-nil before)

with_fallback-AtMostOnce :
    (m : Message) (s : Sdk) (c : ℕ) (uuid : Option String) (allow : Bool) (done : List ℕ) (t : Sdk)
    → Once m s (record { done = done; sdk = t }) c
    → AtMostOnce m s c (with_fallback uuid allow (record { done = done; sdk = t }))
with_fallback-AtMostOnce m s c uuid allow [] t h =
    let same = h ∙ append-nil (outbox_of s c) in
    if_rule (AtMostOnce m s c) (allow && can_fall_back t) (λ _. (inl same, inr same))
      (λ _. (inl same, inr same))
with_fallback-AtMostOnce m s c uuid allow (d ∷ ds) t h =
    (copies_cases m (is_done c (record { done = d ∷ ds; sdk = t })) _ _ h, inl refl)

-- Whatever the peer, the direction and the preference, a call puts the message at most once on each
-- data channel and changes nothing else that was sent; and a message over the WebSocket is sent only
-- when it went to no channel.
pub send_data_internal_once :
    (m : Message) (uuid : Option String) (type : Option Kind) (preference : Preference)
    (allow : Bool) (s : Sdk) (c : ℕ)
    → AtMostOnce m s c (send_data_internal m uuid type preference allow s)
unfolding send_data_internal
send_data_internal_once m uuid type preference allow s c =
    let p = over_channels m uuid type preference (record { done = []; sdk = s }) in
    with_fallback-AtMostOnce m s c uuid allow p.done p.sdk (
      over_channels-Once m s c uuid type preference (record { done = []; sdk = s })
        (sym (append-nil (outbox_of s c))))
