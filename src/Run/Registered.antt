-- ===== src/Run/Registered.antt =====
-- What every run keeps of `this.connections`.
use ninja_vst3_plugin.Prelude.{ℕ, String, some, [], ◌≡◌, arith}
use ninja_vst3_plugin.Prelude.Table.{get}
use ninja_vst3_plugin.Peer.Types.{Kind, Sdk}
use ninja_vst3_plugin.Peer.Registry.{
  listed, Belongs, IsRegistered, IsFiled, Evolves, calm, begins, after,
}
use ninja_vst3_plugin.Peer.Registry.Calm.{
  channel_received-IsCalm, relay_restore_over-IsCalm, start_ping_monitoring-IsCalm,
  ping_ticked-IsCalm, send_ping-IsCalm, track_pending-IsCalm, view_hashed-IsCalm, poll_view-IsCalm,
  view_timed_out-IsCalm, retry_pending_view-IsCalm, retry_fired-IsCalm,
}
use ninja_vst3_plugin.Peer.Registry.Kept.{Evolves-IsRegistered, Evolves-IsFiled}
use ninja_vst3_plugin.Peer.Registry.Operations.{
  recovery_resumed-Evolves, handle_peer_connection_state-Evolves,
}
use ninja_vst3_plugin.Peer.Registry.Endings.{
  grace_elapsed-Evolves, connect_elapsed-Evolves, recovery_elapsed-Evolves, handle_hangup-Evolves,
  handle_bye-Evolves, handle_user_left-Evolves, stop_viewing_flushed-Evolves, stop_viewing-IsCalm,
}
use ninja_vst3_plugin.Run.{
  report, Step, created, channel_opened, changed, resumed, grace_over, connect_over, recovery_over,
  relay_over, monitored, ticked, pinged, viewed, hashed, polled, view_late, view_again,
  failed_again, stopped, stop_flushed, left, hung_up, said_bye, connecting, opened, closed, settled,
  disconnecting, disconnected, publishing_left, publishing_over, sent, Reach, start, next,
}
use ninja_vst3_plugin.Presence.Stops.{stop_each-Evolves}
use ninja_vst3_plugin.Run.Sends.{say_stopped_each-IsCalm, send_data-IsCalm}
use ninja_vst3_plugin.Run.Sessions.{
  report-IsCalm, connect-IsCalm, socket_opened-IsCalm, socket_closed-IsCalm,
  reconnect_settled-IsCalm, disconnect-IsCalm, disconnect_flushed-Evolves,
}

-- Each step of a state whose entries stand in their places changes the table of connections only in
-- one of these ways: not at all, by the end of one direction, by the leaving of one peer, by the end
-- of all, by a new connection, or by several of these in turn.
pub Step-Evolves : {s t : Sdk} → IsFiled s → Step s t → Evolves s t
Step-Evolves filed (created uuid kind pc channel stream_id s) =
    begins uuid kind pc channel stream_id s
Step-Evolves filed (channel_opened c channel s) = calm (channel_received-IsCalm c channel s)
Step-Evolves filed (changed c peer_state ice_state s) =
    after (calm (report-IsCalm c peer_state ice_state s))
      (handle_peer_connection_state-Evolves c (report c peer_state ice_state s))
Step-Evolves filed (resumed c reason phase started s) =
    recovery_resumed-Evolves c reason phase started s
Step-Evolves filed (grace_over c s) = grace_elapsed-Evolves c s
Step-Evolves filed (connect_over c s) = connect_elapsed-Evolves c s
Step-Evolves filed (recovery_over c reason s) = recovery_elapsed-Evolves c reason s
Step-Evolves filed (relay_over c s) = calm (relay_restore_over-IsCalm c s)
Step-Evolves filed (monitored c s) = calm (start_ping_monitoring-IsCalm c s)
Step-Evolves filed (ticked c s) = calm (ping_ticked-IsCalm c s)
Step-Evolves filed (pinged uuid s) = calm (send_ping-IsCalm uuid s)
Step-Evolves filed (viewed stream_id s) = calm (track_pending-IsCalm stream_id s)
Step-Evolves filed (hashed stream_id options waiter s) =
    calm (view_hashed-IsCalm stream_id options waiter s)
Step-Evolves filed (polled stream_id interval timeout s) =
    calm (poll_view-IsCalm stream_id interval timeout s)
Step-Evolves filed (view_late stream_id options interval waiter s) =
    calm (view_timed_out-IsCalm stream_id options interval waiter s)
Step-Evolves filed (view_again stream_id options s) =
    calm (retry_pending_view-IsCalm stream_id options s)
Step-Evolves filed (failed_again stream_id a s) = calm (retry_fired-IsCalm stream_id a s)
Step-Evolves filed (stopped stream_id s) = calm (stop_viewing-IsCalm stream_id s)
Step-Evolves filed (stop_flushed stream_id s) = stop_viewing_flushed-Evolves stream_id s filed
Step-Evolves filed (left uuid s) = handle_user_left-Evolves uuid s
Step-Evolves filed (hung_up uuid s) = handle_hangup-Evolves uuid s
Step-Evolves filed (said_bye uuid s) = handle_bye-Evolves uuid s
Step-Evolves filed (connecting s) = calm (connect-IsCalm s)
Step-Evolves filed (opened s) = calm (socket_opened-IsCalm s)
Step-Evolves filed (closed s) = calm (socket_closed-IsCalm s)
Step-Evolves filed (settled success s) = calm (reconnect_settled-IsCalm success s)
Step-Evolves filed (disconnecting s) = calm (disconnect-IsCalm s)
Step-Evolves filed (disconnected s) = disconnect_flushed-Evolves s
Step-Evolves filed (publishing_left s) = calm (say_stopped_each-IsCalm s.connections s)
Step-Evolves filed (publishing_over s) = stop_each-Evolves s.connections s filed
Step-Evolves filed (sent m target s) = calm (send_data-IsCalm m target s)

start-IsRegistered : (s : Sdk) → s.connections ≡ [] → IsRegistered s
unfolding get
start-IsRegistered s none_yet uuid kind c here = ground (arith, none_yet)

start-IsFiled : (s : Sdk) → s.connections ≡ [] → IsFiled s
start-IsFiled s none_yet = rw none_yet tt

-- In every state that a run reaches from an instance without connections, each entry of the table
-- holds, at the peer and the direction it is filed under, an object that exists, whose own UUID and
-- type are these.
pub Reach-IsFiled : {s : Sdk} → Reach s → IsFiled s
Reach-IsFiled (start s none_yet) = start-IsFiled s none_yet
Reach-IsFiled (next run step) =
    let filed = Reach-IsFiled run in Evolves-IsFiled (Step-Evolves filed step) filed

-- In every state that a run reaches from an instance without connections, whatever is listed for a
-- peer and a direction is an object that exists, whose UUID and type are these, and that is not
-- finalized.
pub Reach-IsRegistered : {s : Sdk} → Reach s → IsRegistered s
Reach-IsRegistered (start s none_yet) = start-IsRegistered s none_yet
Reach-IsRegistered (next run step) =
    Evolves-IsRegistered (Step-Evolves (Reach-IsFiled run) step) (Reach-IsRegistered run)

-- In every state that a run reaches from an instance without connections, an object that is listed
-- for a peer and a direction exists, its UUID and type are these, and it is not finalized.
pub Reach-Belongs :
    (s : Sdk) (uuid : String) (kind : Kind) (c : ℕ)
    → Reach s
    → listed uuid kind s.connections ≡ some c
    → Belongs uuid kind s.next_object c (s.objects c)
Reach-Belongs s uuid kind c run here = Reach-IsRegistered run uuid kind c here
