-- ===== src/Examples/Runs.antt =====
-- Runs of an instance.
use ninja_vst3_plugin.Peer.Health.{
  tell_recovered, set_healthy, restore_later, forget_recovered, became_connected, announce,
  handle_peer_connection_state, observe,
}
use ninja_vst3_plugin.Prelude.{true, false, none, some, [], ◌∷◌, ◌≢◌, refl, arith}
use ninja_vst3_plugin.Prelude.Table.{get, set}
use ninja_vst3_plugin.Peer.Types.{viewer, DataChannel, PeerState, IceState, Sdk}
use ninja_vst3_plugin.Peer.State.{is_current_in}
use ninja_vst3_plugin.Peer.Create.{create_connection}
use ninja_vst3_plugin.Peer.Departure.{handle_hangup}
use ninja_vst3_plugin.Peer.Registry.{listed, Belongs, IsFiled, Evolves}
use ninja_vst3_plugin.Run.{report, start, next, created, changed, hung_up}
use ninja_vst3_plugin.Run.Registered.{Step-Evolves, Reach-Belongs}
use ninja_vst3_plugin.Run.Removed.{stay, onward, Steps-removed}
use ninja_vst3_plugin.Examples.Samples.{peer_in, connected, failing}

abbrev waiting : DataChannel
waiting = record { is_open = false; sends = true; outbox = [] }

abbrev lonely : Sdk
lonely = record connected { connections = [] }

abbrev joined : Sdk
joined =
    create_connection "ann" viewer (peer_in PeerState.connected IceState.connected) waiting
      (some "cam") lonely

Reach-Belongs_example : Belongs "ann" viewer 3 2 (
    (handle_peer_connection_state 2
        (report 2 PeerState.connected IceState.connected joined)).objects
      2)
unfolding create_connection get set handle_peer_connection_state is_current_in observe
    became_connected forget_recovered restore_later tell_recovered announce set_healthy
Reach-Belongs_example =
    Reach-Belongs
      (handle_peer_connection_state 2 (report 2 PeerState.connected IceState.connected joined))
      "ann" viewer 2
      (next
        (next (start lonely refl) (
          created "ann" viewer (peer_in PeerState.connected IceState.connected) waiting (some "cam")
            lonely))
        (changed 2 PeerState.connected IceState.connected joined))
      refl

filed : IsFiled failing
filed = (((omega arith, refl, refl), (omega arith, refl, refl)), tt)

Step-Evolves_example : Evolves failing (handle_hangup "bob" failing)
Step-Evolves_example = Step-Evolves filed (hung_up "bob" failing)

-- The direction from him is lost, and then set up anew.
abbrev lost_one : Sdk
lost_one = record failing {
  connections = ("bob", record { viewer_side = none; publisher_side = some 1 }) ∷ [];
}

abbrev again : Sdk
again =
    create_connection "bob" viewer (peer_in PeerState.connected IceState.connected) waiting
      (some "cam") lost_one

Steps-removed_example : listed "bob" viewer again.connections ≢ some 0
unfolding get
Steps-removed_example =
    Steps-removed lost_one again "bob" viewer 0 ((tt, (omega arith, refl, refl)), tt) (omega arith)
      (ground arith)
      (onward stay (
        created "bob" viewer (peer_in PeerState.connected IceState.connected) waiting (some "cam")
          lost_one))
