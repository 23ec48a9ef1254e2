-- ===== src/Run/Sessions.antt =====
-- What the session's calls do to the table of connections.
use ninja_vst3_plugin.Prelude.{ℕ, Bool, true, false, none, List, [], ◌∷◌, ◌≡◌, refl, ◌∙◌, arith}
use ninja_vst3_plugin.Peer.Types.{Sdk, PeerState, IceState}
use ninja_vst3_plugin.Peer.Registry.{SamePlace, IsCalm, IsCalm-trans, Evolves, empties}
use ninja_vst3_plugin.Peer.Registry.Calm.{say_byes-IsCalm}
use ninja_vst3_plugin.Session.{
  connect, socket_opened, socket_closed, reconnect_settled, attempt_reconnect, disconnect,
  disconnect_flushed, tear_down, tear_down_all, addresses, clear_failed_timers,
}
use ninja_vst3_plugin.Peer.State.{cleared}
use ninja_vst3_plugin.Run.{report}

pub report-IsCalm :
    (c : ℕ) (peer_state : PeerState) (ice_state : IceState) (s : Sdk)
    → IsCalm s (report c peer_state ice_state s)
report-IsCalm c peer_state ice_state s = ground arith

pub connect-IsCalm : (s : Sdk) → IsCalm s (connect s)
unfolding connect
connect-IsCalm s = ground arith

pub socket_opened-IsCalm : (s : Sdk) → IsCalm s (socket_opened s)
unfolding socket_opened
socket_opened-IsCalm s = ground arith

attempt_reconnect-IsCalm : (s : Sdk) → IsCalm s (attempt_reconnect s)
unfolding attempt_reconnect
attempt_reconnect-IsCalm s = ground arith

pub reconnect_settled-IsCalm : (success : Bool) (s : Sdk) → IsCalm s (reconnect_settled success s)
unfolding reconnect_settled attempt_reconnect
reconnect_settled-IsCalm true s = ground arith
reconnect_settled-IsCalm false s = ground arith

pub socket_closed-IsCalm : (s : Sdk) → IsCalm s (socket_closed s)
unfolding socket_closed attempt_reconnect
socket_closed-IsCalm s = ground arith

pub disconnect-IsCalm : (s : Sdk) → IsCalm s (disconnect s)
unfolding disconnect
disconnect-IsCalm s =
    let forgotten = record s {
      intentional_disconnect = true;
      view_intents = [];
      stopped_views = [];
      timers =
          cleared s.reconnect_timer (clear_failed_timers s.failed_views s.failed_objects s.timers);
      failed_views = [];
      reconnect_timer = none;
    } in
    let quiet : IsCalm s forgotten = record {
      connections = refl;
      next = refl;
      objects = λ d. (refl, refl, refl);
    } in
    let byes = say_byes-IsCalm (addresses s.connections) forgotten in
    record {
      connections = (IsCalm-trans quiet byes).connections;
      next = (IsCalm-trans quiet byes).next;
      objects = (IsCalm-trans quiet byes).objects;
    }

abbrev SamePlaces : Sdk → Sdk → Type 0
SamePlaces s t = (t.next_object ≡ s.next_object) × ((d : ℕ) → SamePlace (s.objects d) (t.objects d))

tear_down-SamePlaces : (c : ℕ) (s : Sdk) → SamePlaces s (tear_down c s)
unfolding tear_down
tear_down-SamePlaces c s = (ground arith, λ d. ground arith)

tear_down_all-SamePlaces : (cs : List ℕ) (s : Sdk) → SamePlaces s (tear_down_all cs s)
unfolding tear_down_all
tear_down_all-SamePlaces [] s = (refl, λ d. (refl, refl))
tear_down_all-SamePlaces (c ∷ cs) s =
    let (next, same) = tear_down-SamePlaces c s in
    let (rest_next, rest) = tear_down_all-SamePlaces cs (tear_down c s) in
    (rest_next ∙ next, λ d. ((rest d).0 ∙ (same d).0, (rest d).1 ∙ (same d).1))

pub disconnect_flushed-Evolves : (s : Sdk) → Evolves s (disconnect_flushed s)
unfolding disconnect_flushed
disconnect_flushed-Evolves s =
    let (next, same) = tear_down_all-SamePlaces (addresses s.connections) s in
    empties (record { connections = refl; next = next; places = same })
