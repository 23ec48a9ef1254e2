-- ===== src/Examples/Samples.antt =====
-- A peer `bob` that is connected in both directions: the connection 0 views his stream `cam`, the
-- connection 1 publishes to him. The socket is open, the stream is wanted.
use ninja_vst3_plugin.Prelude.{ℕ, zero, suc, true, false, none, some, [], ◌∷◌}
use ninja_vst3_plugin.Peer.Types.{
  Kind, viewer, publisher, PeerState, IceState, Health, RtcConfiguration, PeerConnection,
  Connection, Pair, FailedView, Callback, Timer, Sdk,
}

abbrev pub servers : RtcConfiguration
servers = record { ice_servers = ("stun:one" ∷ []) ∷ ("turn:two" ∷ []) ∷ []; relay = false }

abbrev pub peer_in : PeerState → IceState → PeerConnection
peer_in peer_state ice_state = record {
  peer_state = peer_state;
  ice_state = ice_state;
  configuration = servers;
  reports = true;
  configurable = true;
  accepts = true;
  is_closed = false;
}

abbrev pub connection_of : Kind → PeerConnection → Connection
connection_of kind pc = record {
  uuid = "bob";
  kind = kind;
  pc = pc;
  data_channel = some (record { is_open = true; sends = true; outbox = [] });
  stream_id = some "cam";
  view_options = 7;
  health = Health.connecting;
  recovery_stage = 0;
  recovering = false;
  disconnect_timer = none;
  recovery_timer = none;
  connect_timer = some 1;
  relay_restore_timer = none;
  ping_timer = none;
  relay_escalated = false;
  original_configuration = none;
  peer_connected_emitted = false;
  finalized = false;
  missed_pings = 1;
  pending_ping = some 3;
}

abbrev pub kind_at : ℕ → Kind
kind_at zero = viewer
kind_at (suc _) = publisher

abbrev pub bob : Pair
bob = record { viewer_side = some 0; publisher_side = some 1 }

abbrev pub lost_view : FailedView
lost_view = record {
  uuid = "bob";
  view_options = 7;
  retry_count = 2;
  last_retry = 0;
  timer = some 2;
}

abbrev pub timer_of : ℕ → Callback → Timer
timer_of id callback = record { id = id; delay = 100; repeats = false; callback = callback }

-- The state in which both directions have the peer connection given.
abbrev pub sdk_with : PeerConnection → Sdk
sdk_with pc = record {
  connections = ("bob", bob) ∷ [];
  objects = λ c. connection_of (kind_at c) pc;
  next_object = 2;
  streams = [];
  view_intents = ("cam", 7) ∷ [];
  stopped_views = [];
  pending_views = [];
  view_retry_timers = ("cam", 4) ∷ [];
  failed_views = ("cam", 0) ∷ [];
  failed_objects = λ a. lost_view;
  next_failed = 1;
  timers =
      timer_of 1 (Callback.connect_over 0)
      ∷ timer_of 2 (Callback.retry_view "cam" 0)
      ∷ timer_of 4 (Callback.retry_pending "cam" 7)
      ∷ [];
  next_id = 5;
  suspended = [];
  events = [];
  now = 60000;
  is_connected = true;
  signaling = some true;
  play_requests = [];
  reconnect_attempts = 0;
  max_reconnect_attempts = 2;
  reconnect_delay = 1000;
  reconnect_timer = none;
  is_reconnecting = false;
  view_retry_interval = 15000;
  auto_recover = true;
  auto_relay = true;
  force_turn = false;
  intentional_disconnect = false;
  configuration = servers;
  disconnect_grace_period = 5000;
  recovery_timeout = 10000;
  connection_timeout = 15000;
  relay_restore_delay = 60000;
  auto_ping_viewer = false;
  auto_ping_interval = 10000;
}

abbrev pub connected : Sdk
connected = sdk_with (peer_in PeerState.connected IceState.connected)

abbrev pub failing : Sdk
failing = sdk_with (peer_in PeerState.failed IceState.failed)
