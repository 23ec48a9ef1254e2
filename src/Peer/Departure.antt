-- ===== src/Peer/Departure.antt =====
-- `_handleUserLeft`, `_handleBye` and `_handleHangup`: a peer's end, as the signaling server or the
-- peer itself tells it.
pub mod Ends
use ninja_vst3_plugin.Prelude.{
  ℕ, suc, String, Bool, true, false, Option, none, some, List, [], ◌∷◌, ◌++◌, if◌then◌else◌,
}
use ninja_vst3_plugin.Prelude.Table.{get, set, delete}
use ninja_vst3_plugin.Peer.Types.{
  Pair, Sdk, retry_after_bye, user_left, peer_bye, peer_hangup, peer_gone,
}
use ninja_vst3_plugin.Peer.State.{update, emit, arm, close_pc}
use ninja_vst3_plugin.Peer.Recovery.{finalize}

abbrev pub close_side : Option ℕ → Sdk → Sdk
close_side none s = s
close_side (some c) s = close_pc c s

-- The timers of the two directions are left armed.
unfoldable pub handle_user_left : String → Sdk → Sdk
handle_user_left uuid s = emit (user_left uuid) (elim (get uuid s.connections) [
  | none ↦ s
  | some pair ↦
      let closed = close_side pair.publisher_side (close_side pair.viewer_side s) in
      record closed { connections = delete uuid closed.connections }
])

-- The order of the steps within one direction does not show: no ping or recovery timer is left, it
-- is finalized and closed.
abbrev pub finalize_side : Option ℕ → Sdk → Sdk
finalize_side none s = s
finalize_side (some c) s = finalize c s

unfoldable pub drop_peer : String → Pair → Sdk → Sdk
drop_peer uuid pair s =
    let closed = finalize_side pair.publisher_side (finalize_side pair.viewer_side s) in
    record closed { connections = delete uuid closed.connections }

unfoldable pub handle_hangup : String → Sdk → Sdk
handle_hangup uuid s = emit (peer_gone uuid) (
    emit (peer_hangup uuid)
      (elim (get uuid s.connections) [ none ↦ s | some pair ↦ drop_peer uuid pair s ]))

-- The record for the retry starts to count anew and holds no timer; the old record's timer stays.
unfoldable pub retry_left_view : String → Option ℕ → Sdk → Sdk → Sdk
retry_left_view uuid none before s = s
retry_left_view uuid (some c) before s =
    if before.intentional_disconnect then s else elim (before.objects c).stream_id [
      | none ↦ s
      | some stream_id ↦ arm 2000 (retry_after_bye stream_id) (record s {
        failed_objects = update s.failed_objects s.next_failed (record {
          uuid = uuid;
          view_options = (before.objects c).view_options;
          retry_count = 0;
          last_retry = s.now;
          timer = none;
        });
        next_failed = suc s.next_failed;
        failed_views = set stream_id s.next_failed s.failed_views;
      })
    ]

unfoldable pub handle_bye : String → Sdk → Sdk
handle_bye uuid s = emit (peer_gone uuid) (
    emit (peer_bye uuid) (elim (get uuid s.connections) [
      | none ↦ s
      | some pair ↦ retry_left_view uuid pair.viewer_side s (drop_peer uuid pair s)
    ]))
