-- ===== src/Examples/Peers.antt =====
-- Connections, views and sessions.
use ninja_vst3_plugin.Peer.View.{view_hashed, view_timed_out, retry_pending_view, stop_viewing}
use ninja_vst3_plugin.Peer.View.Retried.{callback_of, stop_viewing-retried}
use ninja_vst3_plugin.Prelude.{suc, arith, none, ◌++◌, false, true, [], ◌∷◌, ◌≡◌, refl}
use ninja_vst3_plugin.Peer.View.Stops.{Unwanted, stop_viewing-Unwanted}
use ninja_vst3_plugin.Peer.Types.{Sdk, PeerState, IceState, PeerConnection, Reason, requesting_view}
use ninja_vst3_plugin.Session.Attempts.{failures_last, failures, disconnect-stays_reconnecting}
use ninja_vst3_plugin.Peer.Recovery.Failure.{IsOver, handle_connection_failed-IsOver}
use ninja_vst3_plugin.Peer.Relay.Policy.{escalate-restore}
use ninja_vst3_plugin.Examples.Samples.{peer_in, bob, connected, failing}
use ninja_vst3_plugin.Peer.State.{is_current_in}
use ninja_vst3_plugin.Peer.Relay.{is_turn_url, begins, escalate_to_relay, has_turn_server}
use ninja_vst3_plugin.Prelude.Table.{get}
use ninja_vst3_plugin.Peer.Recovery.{handle_connection_failed, recover_connection}
use ninja_vst3_plugin.Peer.Health.{handle_peer_connection_state, observe}
use ninja_vst3_plugin.Peer.Recovery.Progress.{Advanced, recover_connection_progress}
use ninja_vst3_plugin.Peer.Health.Connected.{IsHealthy, became_connected-IsHealthy}
use ninja_vst3_plugin.Peer.Departure.{handle_bye}
use ninja_vst3_plugin.Peer.Departure.Ends.{Gone, handle_bye-IsGone}
use ninja_vst3_plugin.Session.{
  connect, socket_opened, socket_closed, disconnect, attempt_reconnect, disconnect_flushed,
}
use ninja_vst3_plugin.Session.Teardown.{disconnect_flushed-IsOver}

handle_connection_failed-IsOver_example :
    IsOver ((handle_connection_failed 0 Reason.state_failed failing).objects 0)
handle_connection_failed-IsOver_example =
    (handle_connection_failed-IsOver 0 Reason.state_failed failing refl).0

recover_connection_progress_example :
    Advanced 0 ((recover_connection 0 Reason.state_failed failing).objects 0)
unfolding is_current_in get
recover_connection_progress_example =
    recover_connection_progress 0 Reason.state_failed failing refl refl refl

became_connected-IsHealthy_example :
    IsHealthy ((handle_peer_connection_state 0 connected).objects 0)
unfolding is_current_in get observe
became_connected-IsHealthy_example = (became_connected-IsHealthy 0 connected refl refl refl).0

escalate-restore_example : (escalate_to_relay 0 connected).0 ≡ true
unfolding has_turn_server is_turn_url begins is_current_in get
escalate-restore_example = (escalate-restore 0 connected refl refl refl refl refl refl).0

stop_viewing-Unwanted_example : Unwanted "cam" (stop_viewing "cam" connected)
stop_viewing-Unwanted_example = (stop_viewing-Unwanted "cam" connected).0

handle_bye-IsGone_example : Gone "bob" bob connected (handle_bye "bob" connected)
unfolding get
handle_bye-IsGone_example = (handle_bye-IsGone "bob" bob connected refl).0

disconnect-stays_reconnecting_example :
    (socket_closed (
      socket_opened
        (connect (disconnect_flushed (disconnect (attempt_reconnect connected)))))).is_reconnecting
    ≡ true
unfolding attempt_reconnect
disconnect-stays_reconnecting_example =
    (disconnect-stays_reconnecting (attempt_reconnect connected) refl).0

disconnect_flushed-IsOver_example : (disconnect_flushed connected).connections ≡ []
disconnect_flushed-IsOver_example = (disconnect_flushed-IsOver connected).1

abbrev alone : Sdk
alone = record connected { is_connected = false }

abbrev departed : Sdk
departed = record failing { intentional_disconnect = true }

abbrev missing : Sdk
missing = record connected { now = 100 }

abbrev one_server : PeerConnection
one_server = record (peer_in PeerState.connected IceState.connected) {
  configuration = record { ice_servers = ("stun:one" ∷ []) ∷ []; relay = false };
}

failures_last_example : (failures 2 (attempt_reconnect connected)).is_reconnecting ≡ false
failures_last_example = (failures_last 1 connected refl refl refl).0

-- The interval is the timer 0, the timeout the timer 1.
abbrev viewing : Sdk
viewing = view_hashed "cam" 7 none connected

stop_viewing-retried_example :
    (retry_pending_view "cam" 7
      (view_timed_out "cam" 7 connected.next_id none (stop_viewing "cam" viewing))).suspended
    ≡ (stop_viewing "cam" viewing).suspended ++ (requesting_view "cam" 7 none ∷ [])
unfolding view_hashed callback_of get
stop_viewing-retried_example =
    (stop_viewing-retried "cam" 7 connected.next_id (suc connected.next_id) viewing refl
      (λ e. absurd (ground (arith, e))) (λ e. absurd (ground (arith, e))) refl refl refl).3
