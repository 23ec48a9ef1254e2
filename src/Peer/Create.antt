-- ===== src/Peer/Create.antt =====
-- `_createConnection` after its configuration is known, and its `ondatachannel` handler.
use ninja_vst3_plugin.Prelude.{ℕ, suc, String, false, Option, none, some}
use ninja_vst3_plugin.Prelude.Table.{get, set}
use ninja_vst3_plugin.Peer.Types.{
  Kind, viewer, publisher, Health, PeerConnection, DataChannel, Connection, Pair, Sdk, connect_over,
}
use ninja_vst3_plugin.Peer.State.{put_side, update, modify, arm}

-- Only a publisher creates its data channel.
abbrev pub created_channel : Kind → DataChannel → Option DataChannel
created_channel viewer channel = none
created_channel publisher channel = some channel

abbrev pub new_connection :
    String → Kind → PeerConnection → DataChannel → Option String → Connection
new_connection uuid kind pc channel stream_id = record {
  uuid = uuid;
  kind = kind;
  pc = pc;
  data_channel = created_channel kind channel;
  stream_id = stream_id;
  view_options = 0;
  health = Health.connecting;
  recovery_stage = 0;
  recovering = false;
  disconnect_timer = none;
  recovery_timer = none;
  connect_timer = none;
  relay_restore_timer = none;
  ping_timer = none;
  relay_escalated = false;
  original_configuration = none;
  peer_connected_emitted = false;
  finalized = false;
  missed_pings = 0;
  pending_ping = none;
}

abbrev pub pair_of : Option Pair → Pair
pair_of none = record { viewer_side = none; publisher_side = none }
pair_of (some pair) = pair

-- `pc` and `channel` are what the WebRTC implementation creates. The new object's address is
-- `s.next_object`.
unfoldable pub create_connection :
    String → Kind → PeerConnection → DataChannel → Option String → Sdk → Sdk
create_connection uuid kind pc channel stream_id s =
    let c = s.next_object in
    let stored = record s {
      objects = update s.objects c (new_connection uuid kind pc channel stream_id);
      next_object = suc c;
      connections = set uuid (put_side kind c (pair_of (get uuid s.connections))) s.connections;
    } in
    modify c (λ conn. record conn { connect_timer = some s.next_id })
      (arm s.connection_timeout (connect_over c) stored)

-- pc.ondatachannel
unfoldable pub channel_received : ℕ → DataChannel → Sdk → Sdk
channel_received c channel = modify c (λ conn. record conn { data_channel = some channel })
