-- ===== src/Session.antt =====
-- The signaling socket's session: `connect` and the socket's callbacks, `disconnect` and
-- `_attemptReconnect`. The environment opens, closes and fails the socket. Rooms, publishing and
-- passwords are left out; `Peer.Types.Sdk` is the state.
pub mod Attempts
pub mod Teardown
use ninja_vst3_plugin.Prelude.{
  ℕ, suc, ◌+◌, String, Bool, true, false, not, ◌&&◌, Option, none, some, List, [], ◌∷◌, ◌++◌, ltb,
  leb, if◌then◌else◌,
}
use ninja_vst3_plugin.Peer.Types.{
  Kind, viewer, publisher, Connection, Pair, FailedView, Timer, Sdk, Callback, reconnect, Event,
  reconnecting, tearing_down,
}
use ninja_vst3_plugin.Peer.State.{
  modify, emit, arm, disarm, cleared, suspend, close_pc, clear_recovery_timers,
  stop_ping_monitoring,
}
use ninja_vst3_plugin.Peer.View.{say_byes}
use ninja_vst3_plugin.Peer.Backoff.{reconnect_wait}

-- `connect` up to the socket's events.
unfoldable pub connect : Sdk → Sdk
connect s =
    if s.is_connected
    then s
    else record s { intentional_disconnect = false; signaling = some false }

-- signaling.onopen
unfoldable pub socket_opened : Sdk → Sdk
socket_opened s = emit Event.connected (record s {
  signaling = some true;
  is_connected = true;
  reconnect_attempts = (if s.is_reconnecting then s.reconnect_attempts else 0);
})

unfoldable pub attempt_reconnect : Sdk → Sdk
attempt_reconnect s =
    if s.is_reconnecting
    then s
    else (let attempts = suc s.reconnect_attempts in
        let started =
          emit (reconnecting attempts s.max_reconnect_attempts)
            (record s { is_reconnecting = true; reconnect_attempts = attempts }) in
        record (arm (reconnect_wait s.reconnect_delay attempts) reconnect started) {
          reconnect_timer = some s.next_id;
        })

-- The rest of the reconnect timer's callback, after `connect` and `_restoreConnectionIntent`
-- succeeded, or one of them failed.
unfoldable pub reconnect_settled : Bool → Sdk → Sdk
reconnect_settled true s = record (emit Event.reconnected s) {
  reconnect_attempts = 0;
  is_reconnecting = false;
}
reconnect_settled false s =
    let failed = record s { is_reconnecting = false } in
    if leb s.max_reconnect_attempts s.reconnect_attempts
    then emit Event.reconnect_failed failed
    else attempt_reconnect failed

-- signaling.onclose
unfoldable pub socket_closed : Sdk → Sdk
socket_closed s =
    let closed =
      emit Event.disconnected (record s { signaling = some false; is_connected = false }) in
    if not s.intentional_disconnect && ltb s.reconnect_attempts s.max_reconnect_attempts
    then attempt_reconnect closed
    else closed

-- The loop that stops the failed views' timers.
unfoldable pub clear_failed_timers : List (String × ℕ) → (ℕ → FailedView) → List Timer → List Timer
clear_failed_timers [] objects timers = timers
clear_failed_timers ((_, a) ∷ rest) objects timers =
    clear_failed_timers rest objects (cleared (objects a).timer timers)

abbrev pub addresses_of : Pair → List ℕ
addresses_of pair = elim pair.viewer_side [
  | none ↦ elim pair.publisher_side [ none ↦ [] | some p ↦ p ∷ [] ]
  | some v ↦ elim pair.publisher_side [ none ↦ v ∷ [] | some p ↦ v ∷ p ∷ [] ]
]

-- The connections, each peer's viewer direction first.
unfoldable pub addresses : List (String × Pair) → List ℕ
addresses [] = []
addresses ((_, pair) ∷ rest) = addresses_of pair ++ addresses rest

-- `disconnect` up to its byes.
unfoldable pub disconnect : Sdk → Sdk
disconnect s =
    let forgotten = record s {
      intentional_disconnect = true;
      view_intents = [];
      stopped_views = [];
      timers =
          cleared s.reconnect_timer (clear_failed_timers s.failed_views s.failed_objects s.timers);
      failed_views = [];
      reconnect_timer = none;
    } in
    suspend tearing_down (say_byes (addresses s.connections) forgotten)

-- One connection's end in `disconnect`.
unfoldable pub tear_down : ℕ → Sdk → Sdk
tear_down c s = close_pc c (
    modify c (λ conn. record conn { finalized = true })
      (clear_recovery_timers c (stop_ping_monitoring c s)))

unfoldable pub tear_down_all : List ℕ → Sdk → Sdk
tear_down_all [] s = s
tear_down_all (c ∷ cs) s = tear_down_all cs (tear_down c s)

-- The loop that stops the timers of `_viewRetryTimers`.
unfoldable pub clear_view_timers : List (String × ℕ) → List Timer → List Timer
clear_view_timers [] timers = timers
clear_view_timers ((_, i) ∷ rest) timers = clear_view_timers rest (cleared (some i) timers)

-- `disconnect` once the byes are flushed.
unfoldable pub disconnect_flushed : Sdk → Sdk
disconnect_flushed s =
    let closed = tear_down_all (addresses s.connections) s in
    emit Event.disconnected (record closed {
      connections = [];
      timers = clear_view_timers closed.view_retry_timers closed.timers;
      view_retry_timers = [];
      signaling = none;
      is_connected = false;
    })
