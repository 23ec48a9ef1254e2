-- ===== src/Peer/Registry/Calm.antt =====
-- The operations that leave the table of connections alone.
use ninja_vst3_plugin.Prelude.{
  ℕ, String, Bool, true, false, Option, none, some, Option-cases, inl, inr, List, [], ◌∷◌, arith,
}
use ninja_vst3_plugin.Prelude.Table.{get}
use ninja_vst3_plugin.Peer.Types.{Sdk, Pair, Kind, viewer, publisher, Reason, DataChannel}
use ninja_vst3_plugin.Peer.Registry.{IsCalm, IsCalm-refl, IsCalm-trans}
use ninja_vst3_plugin.Peer.State.{is_current_in, say_bye}
use ninja_vst3_plugin.Peer.Create.{channel_received}
use ninja_vst3_plugin.Peer.Recovery.{
  mark_recovering, direct_attempt, request_ice_restart, keep_for_retry, remember_failed_view,
}
use ninja_vst3_plugin.Peer.Health.{
  set_healthy, announce, tell_recovered, restore_later, arm_grace, became_disconnected,
  forget_recovered,
}
use ninja_vst3_plugin.Peer.Relay.{
  escalate_to_relay, schedule_relay_restore, relay_restore_over, restore_to,
}
use ninja_vst3_plugin.Peer.Ping.{
  start_ping_monitoring, ask_for_restart, second_miss, send_ping, ping_ticked, miss,
  set_pending_pair, try_ping, ping_pair, or_viewer,
}
use ninja_vst3_plugin.Peer.View.{
  track_pending, view, view_hashed, poll_view, setup_view_retry, schedule_retry, view_timed_out,
  retry_pending_view, retry_failed_viewer, retry_fired, say_byes, forget_view,
}

pub escalate_to_relay-IsCalm : (c : ℕ) (s : Sdk) → IsCalm s (escalate_to_relay c s).1
unfolding escalate_to_relay
escalate_to_relay-IsCalm c s = ground arith

pub set_healthy-IsCalm : (c : ℕ) (s : Sdk) → IsCalm s (set_healthy c s)
unfolding set_healthy
set_healthy-IsCalm c s = ground arith

pub announce-IsCalm :
    (c : ℕ) (emitted : Bool) (kind : Kind) (s : Sdk) → IsCalm s (announce c emitted kind s)
unfolding announce
announce-IsCalm c emitted kind s = ground arith

pub tell_recovered-IsCalm :
    (c : ℕ) (recovered : Bool) (s : Sdk) → IsCalm s (tell_recovered c recovered s)
unfolding tell_recovered
tell_recovered-IsCalm c recovered s = ground arith

pub schedule_relay_restore-IsCalm : (c : ℕ) (s : Sdk) → IsCalm s (schedule_relay_restore c s)
unfolding schedule_relay_restore
schedule_relay_restore-IsCalm c s = ground arith

pub relay_restore_over-IsCalm : (c : ℕ) (s : Sdk) → IsCalm s (relay_restore_over c s)
unfolding relay_restore_over restore_to is_current_in
relay_restore_over-IsCalm c s = ground arith

pub restore_later-IsCalm :
    (c : ℕ) (escalated : Bool) (s : Sdk) → IsCalm s (restore_later c escalated s)
unfolding restore_later schedule_relay_restore
restore_later-IsCalm c escalated s = ground arith

pub arm_grace-IsCalm : (c : ℕ) (timer : Option ℕ) (s : Sdk) → IsCalm s (arm_grace c timer s)
unfolding arm_grace
arm_grace-IsCalm c timer s = ground arith

pub became_disconnected-IsCalm : (c : ℕ) (s : Sdk) → IsCalm s (became_disconnected c s)
unfolding became_disconnected arm_grace
became_disconnected-IsCalm c s = ground arith

pub mark_recovering-IsCalm : (c : ℕ) (s : Sdk) → IsCalm s (mark_recovering c s)
unfolding mark_recovering
mark_recovering-IsCalm c s = ground arith

pub direct_attempt-IsCalm :
    (c : ℕ) (reason : Reason) (s : Sdk) → IsCalm s (direct_attempt c reason s)
unfolding direct_attempt request_ice_restart
direct_attempt-IsCalm c reason s = ground arith

pub start_ping_monitoring-IsCalm : (c : ℕ) (s : Sdk) → IsCalm s (start_ping_monitoring c s)
unfolding start_ping_monitoring
start_ping_monitoring-IsCalm c s = ground arith

pub ask_for_restart-IsCalm : (c : ℕ) (s : Sdk) → IsCalm s (ask_for_restart c s)
unfolding ask_for_restart
ask_for_restart-IsCalm c s = ground arith

pub second_miss-IsCalm : (c : ℕ) (s : Sdk) → IsCalm s (second_miss c s)
unfolding second_miss ask_for_restart
second_miss-IsCalm c s = ground arith

set_pending_pair-IsCalm : (now : ℕ) (pair : Pair) (s : Sdk) → IsCalm s (set_pending_pair now pair s)
set_pending_pair-IsCalm now pair s = ground arith

try_ping-IsCalm : (now : ℕ) (c : Option ℕ) (s : Sdk) → IsCalm s (try_ping now c s).1
unfolding try_ping
try_ping-IsCalm now c s = ground arith

or_viewer-IsCalm :
    (now : ℕ) (c : Option ℕ) (s : Sdk) (tried : Bool × Sdk)
    → IsCalm s tried.1
    → IsCalm s (or_viewer now c tried).1
or_viewer-IsCalm now c s (true, t) calm = calm
or_viewer-IsCalm now c s (false, t) calm = IsCalm-trans calm (try_ping-IsCalm now c t)

ping_pair-IsCalm : (now : ℕ) (pair : Pair) (s : Sdk) → IsCalm s (ping_pair now pair s).1
unfolding ping_pair
ping_pair-IsCalm now pair s =
    or_viewer-IsCalm now pair.viewer_side s (try_ping now pair.publisher_side s)
      (try_ping-IsCalm now pair.publisher_side s)

pub send_ping-IsCalm : (uuid : String) (s : Sdk) → IsCalm s (send_ping uuid s).1
unfolding send_ping
send_ping-IsCalm uuid s = elim (Option-cases (get uuid s.connections)) [
  | inl e ↦ rw (send_ping, e) (IsCalm-refl s)
  | inr (pair, e) ↦
      rw (send_ping, e)
        (IsCalm-trans (set_pending_pair-IsCalm s.now pair s)
          (ping_pair-IsCalm s.now pair (set_pending_pair s.now pair s)))
]

miss-IsCalm : (c : ℕ) (s : Sdk) → IsCalm s (miss c s)
miss-IsCalm c s = ground arith

pub ping_ticked-IsCalm : (c : ℕ) (s : Sdk) → IsCalm s (ping_ticked c s)
unfolding ping_ticked
ping_ticked-IsCalm c s =
    let uuid = (s.objects c).uuid in
    ground (
      arith,
      IsCalm-refl s,
      send_ping-IsCalm uuid s,
      second_miss-IsCalm c s,
      IsCalm-trans (miss-IsCalm c s) (send_ping-IsCalm uuid (miss c s)),
    )

pub keep_for_retry-IsCalm : (c : ℕ) (s : Sdk) → IsCalm s (keep_for_retry c s)
unfolding keep_for_retry remember_failed_view
keep_for_retry-IsCalm c s = ground arith

pub say_bye-IsCalm : (c : ℕ) (s : Sdk) → IsCalm s (say_bye c s)
unfolding say_bye
say_bye-IsCalm c s = ground arith

pub channel_received-IsCalm :
    (c : ℕ) (channel : DataChannel) (s : Sdk) → IsCalm s (channel_received c channel s)
unfolding channel_received
channel_received-IsCalm c channel s = ground arith

pub track_pending-IsCalm : (stream_id : String) (s : Sdk) → IsCalm s (track_pending stream_id s)
unfolding track_pending
track_pending-IsCalm stream_id s = ground arith

pub view_hashed-IsCalm :
    (stream_id : String) (options : ℕ) (waiter : Option ℕ) (s : Sdk)
    → IsCalm s (view_hashed stream_id options waiter s)
unfolding view_hashed schedule_retry
view_hashed-IsCalm stream_id options waiter s = ground arith

pub poll_view-IsCalm :
    (stream_id : String) (interval timeout : ℕ) (s : Sdk)
    → IsCalm s (poll_view stream_id interval timeout s)
unfolding poll_view
poll_view-IsCalm stream_id interval timeout s = ground arith

pub view_timed_out-IsCalm :
    (stream_id : String) (options interval : ℕ) (waiter : Option ℕ) (s : Sdk)
    → IsCalm s (view_timed_out stream_id options interval waiter s)
unfolding view_timed_out setup_view_retry schedule_retry
view_timed_out-IsCalm stream_id options interval waiter s = ground arith

pub retry_pending_view-IsCalm :
    (stream_id : String) (options : ℕ) (s : Sdk) → IsCalm s (retry_pending_view stream_id options s)
unfolding retry_pending_view view track_pending
retry_pending_view-IsCalm stream_id options s = ground arith

pub retry_failed_viewer-IsCalm :
    (stream_id : String) (s : Sdk) → IsCalm s (retry_failed_viewer stream_id s)
unfolding retry_failed_viewer view track_pending schedule_retry
retry_failed_viewer-IsCalm stream_id s = ground arith

pub retry_fired-IsCalm :
    (stream_id : String) (a : ℕ) (s : Sdk) → IsCalm s (retry_fired stream_id a s)
unfolding retry_fired retry_failed_viewer view track_pending schedule_retry
retry_fired-IsCalm stream_id a s = ground arith

pub forget_view-IsCalm : (stream_id : String) (s : Sdk) → IsCalm s (forget_view stream_id s)
unfolding forget_view
forget_view-IsCalm stream_id s = ground arith

pub say_byes-IsCalm : (cs : List ℕ) (s : Sdk) → IsCalm s (say_byes cs s)
unfolding say_byes
say_byes-IsCalm [] s = IsCalm-refl s
say_byes-IsCalm (c ∷ cs) s = IsCalm-trans (say_bye-IsCalm c s) (say_byes-IsCalm cs (say_bye c s))

pub forget_recovered-IsCalm :
    (kind : Kind) (stream_id : Option String) (s : Sdk)
    → IsCalm s (forget_recovered kind stream_id s)
unfolding forget_recovered
forget_recovered-IsCalm publisher stream_id s = IsCalm-refl s
forget_recovered-IsCalm viewer none s = IsCalm-refl s
forget_recovered-IsCalm viewer (some stream_id) s = ground arith
