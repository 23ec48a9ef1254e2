-- ===== src/Examples/Servers.antt =====
-- TURN servers and their cache.
use ninja_vst3_plugin.Ice.Turn.Ranking.{ranked_lem}
use ninja_vst3_plugin.Ice.Storage.Expiry.{get-set_storage_by_time}
use ninja_vst3_plugin.Ice.Setup.{
  fetch_settled, Cached, failed, fallback_servers, automatic, TurnState, ice_configuration,
}
use ninja_vst3_plugin.Ice.Setup.Config.{ice_configuration-fetch_settled}
use mathlib.Core.List.{Perm}
use ninja_vst3_plugin.Prelude.{ℕ, true, false, none, some, [], ◌∷◌, ◌≡◌, refl, arith, map}
use ninja_vst3_plugin.Prelude.Int.{pos}
use ninja_vst3_plugin.Ice.Turn.{set_delta, ranked, process_turns}
use ninja_vst3_plugin.Ice.Turn.Selection.{udp_servers, process_turns_nearest}
use ninja_vst3_plugin.Ice.Storage.{Storage, get_storage, set_storage}
use ninja_vst3_plugin.Ice.Setup.Cache.{Event, run, IsSingle, run-IsSingle}

abbrev empty_cache : Cached
empty_cache = record { available = true; writable = true; items = [] }

abbrev counts : Storage ℕ
counts = record { available = true; writable = true; items = [] }

abbrev fresh : TurnState
fresh = record {
  turn_servers = automatic;
  turn_list = none;
  turn_promise = false;
  in_flight = 0;
  cache = empty_cache;
}

ranked_lem_example :
    Perm (ranked (pos 300) fallback_servers) (map (set_delta (pos 300)) fallback_servers)
ranked_lem_example = (ranked_lem (pos 300) fallback_servers).0

process_turns_nearest_example : udp_servers (process_turns (pos 300) true fallback_servers) ≡ []
process_turns_nearest_example = (process_turns_nearest (pos 300) fallback_servers).1

run-IsSingle_example :
    IsSingle
      (run fresh (Event.setup ∷ Event.setup ∷ Event.settled (pos 0) false 5 100 200 failed ∷ []))
run-IsSingle_example =
    run-IsSingle fresh
      (Event.setup ∷ Event.setup ∷ Event.settled (pos 0) false 5 100 200 failed ∷ [])
      (record { once = ground arith; awaited = λ h. refl })

get-set_storage_by_time_example :
    (get_storage "turnlist" 500 (set_storage "turnlist" 7 2 100 counts)).0 ≡ some 7
get-set_storage_by_time_example =
    (get-set_storage_by_time "turnlist" 7 2 100 500 counts refl refl (ground arith)).0

ice_configuration-fetch_settled_example :
    (ice_configuration
      ("stun:one" ∷ [])
      true
      (fetch_settled (pos 0) false 5 100 200 failed fresh)).relay_only
    ≡ true
ice_configuration-fetch_settled_example =
    (ice_configuration-fetch_settled ("stun:one" ∷ []) true (pos 0) false 5 100 200 failed fresh).1
