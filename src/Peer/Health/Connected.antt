-- ===== src/Peer/Health/Connected.antt =====
-- What `_handlePeerConnectionState` does when a direction is connected.
use ninja_vst3_plugin.Prelude.{
  ℕ, ◌≡◌, refl, sym, ap, ◌∙◌, String, List, [], ◌∷◌, ◌++◌, Bool, true, false, ◌||◌, Option, none,
  some, arith, ltb,
}
use mathlib.Core.List.{append-nil, append_assoc}
use ninja_vst3_plugin.Peer.Types.{
  Kind, viewer, publisher, Health, Connection, Event, Sdk, peer_connected, connection_recovered,
  direction_state,
}
use ninja_vst3_plugin.Peer.State.{is_current}
use ninja_vst3_plugin.Peer.Relay.{schedule_relay_restore}
use ninja_vst3_plugin.Peer.Health.{
  set_healthy, announce, tell_recovered, restore_later, forget_recovered, became_connected,
  is_recovering, handle_peer_connection_state, observe, Observed,
}

-- Nothing of a recovery is left.
pub record IsHealthy (conn : Connection) : Type 0 where
  pub health : conn.health ≡ Health.connected
  pub stage : conn.recovery_stage ≡ 0
  pub idle : conn.recovering ≡ false
  pub no_disconnect_timer : conn.disconnect_timer ≡ none
  pub no_recovery_timer : conn.recovery_timer ≡ none
  pub no_connect_timer : conn.connect_timer ≡ none

abbrev pub announcement : Bool → Kind → ℕ → List Event
announcement true kind c = []
announcement false kind c = peer_connected c ∷ direction_state kind true c ∷ []

abbrev pub recovery_note : Bool → ℕ → List Event
recovery_note true c = connection_recovered c ∷ []
recovery_note false c = []

set_healthy-IsHealthy :
    (c : ℕ) (s : Sdk)
    → IsHealthy ((set_healthy c s).objects c)
      × ((set_healthy c s).events ≡ s.events)
      × (((set_healthy c s).objects c).peer_connected_emitted
          ≡ (s.objects c).peer_connected_emitted)
unfolding set_healthy
set_healthy-IsHealthy c s = ground arith

announce_lem :
    (c : ℕ) (emitted : Bool) (kind : Kind) (s : Sdk)
    → IsHealthy (s.objects c)
    → (s.objects c).peer_connected_emitted ≡ emitted
    → IsHealthy ((announce c emitted kind s).objects c)
      × ((announce c emitted kind s).events ≡ s.events ++ announcement emitted kind c)
      × (((announce c emitted kind s).objects c).peer_connected_emitted ≡ true)
unfolding announce
announce_lem c true kind s v e = (v, sym (append-nil s.events), e)
announce_lem c false kind s v e = (
  ground arith,
  append_assoc s.events (peer_connected c ∷ []) (direction_state kind true c ∷ []),
  ground arith,
)

tell_recovered_lem :
    (c : ℕ) (recovered : Bool) (s : Sdk)
    → ((tell_recovered c recovered s).objects ≡ s.objects)
      × ((tell_recovered c recovered s).events ≡ s.events ++ recovery_note recovered c)
unfolding tell_recovered
tell_recovered_lem c true s = (refl, refl)
tell_recovered_lem c false s = (refl, sym (append-nil s.events))

restore_later_lem :
    (c : ℕ) (escalated : Bool) (s : Sdk)
    → IsHealthy (s.objects c)
    → IsHealthy ((restore_later c escalated s).objects c)
      × ((restore_later c escalated s).events ≡ s.events)
      × (((restore_later c escalated s).objects c).peer_connected_emitted
          ≡ (s.objects c).peer_connected_emitted)
unfolding restore_later schedule_relay_restore
restore_later_lem c escalated s v = ground arith

forget_recovered_lem :
    (kind : Kind) (stream_id : Option String) (s : Sdk)
    → ((forget_recovered kind stream_id s).objects ≡ s.objects)
      × ((forget_recovered kind stream_id s).events ≡ s.events)
unfolding forget_recovered
forget_recovered_lem publisher stream_id s = (refl, refl)
forget_recovered_lem viewer none s = (refl, refl)
forget_recovered_lem viewer (some stream_id) s = (refl, refl)

-- When a current direction is seen connected, nothing of a recovery is left: the stage is 0 again
-- and the grace, recovery and connect timers are gone from its fields. `peerConnected` is emitted the
-- first time only, and `connectionRecovered` exactly when a recovery had begun.
pub became_connected-IsHealthy :
    (c : ℕ) (s : Sdk)
    → is_current c s ≡ true
    → (s.objects c).finalized ≡ false
    → observe (s.objects c).pc ≡ Observed.connected
    → IsHealthy ((handle_peer_connection_state c s).objects c)
      × (((handle_peer_connection_state c s).objects c).peer_connected_emitted ≡ true)
      × ((handle_peer_connection_state c s).events
          ≡ (s.events ++ announcement (s.objects c).peer_connected_emitted (s.objects c).kind c)
            ++ recovery_note
                (ltb 0 (s.objects c).recovery_stage || is_recovering (s.objects c).health)
                c)
unfolding handle_peer_connection_state became_connected
became_connected-IsHealthy c s current alive up =
    let conn = s.objects c in
    let recovered = ltb 0 conn.recovery_stage || is_recovering conn.health in
    let healthy = set_healthy c s in
    let announced = announce c conn.peer_connected_emitted conn.kind healthy in
    let told = tell_recovered c recovered announced in
    let later = restore_later c conn.relay_escalated told in
    let (h0, e0, f0) = set_healthy-IsHealthy c s in
    let (h1, e1, f1) = announce_lem c conn.peer_connected_emitted conn.kind healthy h0 f0 in
    let (o2, e2) = tell_recovered_lem c recovered announced in
    let (h3, e3, f3) = restore_later_lem c conn.relay_escalated told (rw o2 h1) in
    let (o4, e4) = forget_recovered_lem conn.kind conn.stream_id later in
    rw (current, alive, up, handle_peer_connection_state)
      (rw (o4, e4)
        (
          h3,
          f3 ∙ rw o2 f1,
          e3
              ∙ e2
              ∙ ap (λ l. l ++ recovery_note recovered c)
                  (e1 ∙ ap (λ l. l ++ announcement conn.peer_connected_emitted conn.kind c) e0),
        ))
