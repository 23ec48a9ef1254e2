-- ===== src/Ice/Setup/Cache.antt =====
-- How often the TURN service is asked, and what is made of its answer.
use ninja_vst3_plugin.Prelude.{
  ℕ, ◌+◌, ◌*◌, ◌≤◌, ◌<◌, ◌≡◌, refl, Bool, true, false, Option, none, some, List, [], ◌∷◌, arith,
}
use ninja_vst3_plugin.Prelude.Int.{ℤ}
use ninja_vst3_plugin.Prelude.Table.{get}
use ninja_vst3_plugin.Ice.Turn.{TurnServer}
use ninja_vst3_plugin.Ice.Storage.{get_storage}
use ninja_vst3_plugin.Ice.Storage.Expiry.{get-set_storage}
use ninja_vst3_plugin.Ice.Setup.{
  Cached, Response, failed, answered, fallback_servers, fetch_turn_servers, receive, TurnState,
  setup_turn_servers, fetch_settled, clear_turn_cache, needs_setup,
}

-- What can happen to the servers of an instance.
pub data Event : Type 0 where
  setup : Event
  settled : ℤ → Bool → ℕ → ℕ → ℕ → Response → Event

pub step : TurnState → Event → TurnState
step s setup = setup_turn_servers s
step s (settled tz force_tcp ttl asked now response) =
    fetch_settled tz force_tcp ttl asked now response s

pub run : TurnState → List Event → TurnState
unfolding step
run s [] = s
run s (e ∷ es) = run (step s e) es

-- At most one fetch is under way, and only with a promise that the next setup waits for.
pub record IsSingle (s : TurnState) : Type 0 where
  pub once : s.in_flight ≤ 1
  pub awaited : s.turn_promise ≡ false → s.in_flight ≡ 0

step-IsSingle : (s : TurnState) (e : Event) → IsSingle s → IsSingle (step s e)
unfolding step setup_turn_servers fetch_settled
step-IsSingle s setup v = ground arith
step-IsSingle s (settled tz force_tcp ttl asked now response) v = record {
  once = omega arith;
  awaited = λ h. omega (arith, v.awaited h);
}

-- However often the servers are set up, and whenever the service answers, at most one request to it
-- is under way as long as the cache is not cleared.
pub run-IsSingle : (s : TurnState) (es : List Event) → IsSingle s → IsSingle (run s es)
unfolding run
run-IsSingle s [] v = v
run-IsSingle s (e ∷ es) v = run-IsSingle (step s e) es (step-IsSingle s e v)

-- An answer to a request that was under way when the cache was cleared still becomes the list that
-- is in use, so no fresh request follows.
pub clear_while_fetching :
    (s : TurnState) (tz : ℤ) (force_tcp : Bool) (ttl asked now : ℕ) (response : Response)
    → needs_setup (fetch_settled tz force_tcp ttl asked now response (clear_turn_cache s)) ≡ false
unfolding needs_setup fetch_settled
clear_while_fetching s tz force_tcp ttl asked now response = refl

-- Where nothing usable is answered the built-in servers are used and nothing is stored.
pub fetch-fallback :
    (ttl asked now : ℕ) (cache : Cached) (ok : Bool)
    → get "turnlist" cache.items ≡ none
    → (fetch_turn_servers ttl asked now failed cache ≡ (fallback_servers, cache))
      × (fetch_turn_servers ttl asked now (answered ok none) cache ≡ (fallback_servers, cache))
      × ((body : Option (List TurnServer))
          → fetch_turn_servers ttl asked now (answered false body) cache
            ≡ (fallback_servers, cache))
unfolding fetch_turn_servers receive get_storage
fetch-fallback ttl asked now cache ok e = (ground arith, ground arith, λ body. ground arith)

-- A list that the service answered is used again without a request until its time is over, whatever
-- the service would answer then.
pub fetch-cached :
    (ttl asked now later then_now : ℕ) (servers : List TurnServer) (response : Response)
    (cache : Cached)
    → cache.available ≡ true
    → cache.writable ≡ true
    → get "turnlist" cache.items ≡ none
    → 0 < now
    → later ≤ now + ttl * 60 * 1000
    → (fetch_turn_servers ttl later then_now response
        (fetch_turn_servers ttl asked now (answered true (some servers)) cache).1).0
      ≡ servers
unfolding fetch_turn_servers receive
fetch-cached ttl asked now later then_now servers response cache a w e p h =
    let first : get_storage "turnlist" asked cache ≡ (none, cache) =
      unfold get_storage in ground arith in
    let again = (get-set_storage "turnlist" servers ttl now later cache a w p).0 h in
    ground (arith, first, again)
