-- ===== src/Ice/Setup/Config.antt =====
-- What a peer connection is configured with.
use ninja_vst3_plugin.Prelude.{
  ℕ, suc, ◌+◌, ◌≤◌, ◌≡◌, refl, ap, String, Bool, false, List, [], ◌∷◌, ◌++◌, arith, length, map,
  length-append,
}
use ninja_vst3_plugin.Prelude.Int.{ℤ}
use ninja_vst3_plugin.Ice.Turn.{TurnServer, process_turns}
use ninja_vst3_plugin.Ice.Turn.Selection.{length-process_turns}
use ninja_vst3_plugin.Ice.Setup.{
  Response, disabled, custom, TurnState, setup_turn_servers, fetch_settled, fetch_turn_servers,
  stun, turn, ice_configuration, needs_setup,
}

length-map {ℓ κ} :
    {A : Type ℓ} {B : Type κ} (f : A → B) (xs : List A) → length (map f xs) ≡ length xs
length-map f [] = refl
length-map f (x ∷ xs) = ap suc (length-map f xs)

-- With the servers disabled only STUN servers are used; with the caller's own, these follow the STUN
-- servers unchanged; with the service's, at most three follow. The policy is relay only exactly
-- when it is forced, and in no case is another setup needed.
pub ice_configuration_by_setting :
    (stun_servers : List String) (force : Bool) (s : TurnState)
    → ((ice_configuration stun_servers force s).relay_only ≡ force)
      × (s.turn_servers ≡ disabled
          → ((ice_configuration stun_servers force (setup_turn_servers s)).ice_servers
              ≡ map stun stun_servers ++ [])
            × (needs_setup (setup_turn_servers s) ≡ false))
      × ((own : List TurnServer)
          → s.turn_servers ≡ custom own
          → ((ice_configuration stun_servers force (setup_turn_servers s)).ice_servers
              ≡ map stun stun_servers ++ map turn own)
            × (needs_setup (setup_turn_servers s) ≡ false))
      × ((tz : ℤ) (force_tcp : Bool) (ttl asked now : ℕ) (response : Response)
          → (length
                (ice_configuration stun_servers force
                  (fetch_settled tz force_tcp ttl asked now response s)).ice_servers
              ≤ length stun_servers + 3)
            × (needs_setup (fetch_settled tz force_tcp ttl asked now response s) ≡ false))
unfolding ice_configuration setup_turn_servers fetch_settled needs_setup
ice_configuration_by_setting stun_servers force s = (
  refl,
  λ e. (rw e, rw e),
  λ own e. (rw e, rw e),
  λ tz force_tcp ttl asked now response.
      let servers = (fetch_turn_servers ttl asked now response s.cache).0 in
      let kept = process_turns tz force_tcp servers in
      (
        omega (
          arith,
          length-append (map stun stun_servers) (map turn kept),
          length-map stun stun_servers,
          length-map turn kept,
          length-process_turns tz force_tcp servers,
        ),
        refl,
      ),
)

-- Once the service has answered, or failed to, the configuration has at most three servers more than
-- the STUN servers, it is relay only exactly when that is forced, and no other setup is needed.
pub ice_configuration-fetch_settled :
    (stun_servers : List String) (force : Bool) (tz : ℤ) (force_tcp : Bool) (ttl asked now : ℕ)
    (response : Response) (s : TurnState)
    → (length
          (ice_configuration stun_servers force
            (fetch_settled tz force_tcp ttl asked now response s)).ice_servers
        ≤ length stun_servers + 3)
      × ((ice_configuration stun_servers force
            (fetch_settled tz force_tcp ttl asked now response s)).relay_only
          ≡ force)
      × (needs_setup (fetch_settled tz force_tcp ttl asked now response s) ≡ false)
ice_configuration-fetch_settled stun_servers force tz force_tcp ttl asked now response s =
    let (few, ready) =
      (ice_configuration_by_setting stun_servers force s).3 tz force_tcp ttl asked now response in
    (
      few,
      (ice_configuration_by_setting stun_servers force
          (fetch_settled tz force_tcp ttl asked now response s)).0,
      ready,
    )
