-- ===== src/Peer/State.antt =====
-- The primitive steps: writing an object's fields, arming and clearing timers, emitting, and the
-- helpers `_isCurrentConnection`, `_clearConnectionRecoveryTimers`, `_setTrackedStreamState` and
-- `_stopPingMonitoring`.
use ninja_vst3_plugin.Prelude.{
  ℕ, suc, ◌≡◌, refl, arith, if_rule, String, Bool, true, false, not, ◌&&◌, Option, none, some, List,
  [], ◌∷◌, ◌++◌, filter, ◌==◌, str_eq, if◌then◌else◌,
}
use ninja_vst3_plugin.Prelude.Table.{Table, get, set, delete}
use ninja_vst3_plugin.Peer.Types.{
  Kind, viewer, publisher, Connection, DataChannel, Pair, Stream, StreamState, Callback, Timer,
  Event, Sdk, PeerState, IceState, Suspended, Message, bye,
}

-- `none` leaves the record as it is.
abbrev pub side : Kind → Pair → Option ℕ
side viewer p = p.viewer_side
side publisher p = p.publisher_side

-- delete connections[type]
abbrev pub drop_side : Kind → Pair → Pair
drop_side viewer p = record p { viewer_side = none }
drop_side publisher p = record p { publisher_side = none }

-- connections[type] = connection
abbrev pub put_side : Kind → ℕ → Pair → Pair
put_side viewer c p = record p { viewer_side = some c }
put_side publisher c p = record p { publisher_side = some c }

-- !connections.viewer && !connections.publisher
abbrev pub is_empty_pair : Pair → Bool
is_empty_pair p = elim p.viewer_side [
  | some _ ↦ false
  | none ↦ elim p.publisher_side [ some _ ↦ false | none ↦ true ]
]

abbrev pub is_address : ℕ → Option ℕ → Bool
is_address c none = false
is_address c (some d) = d == c

abbrev pub update {ℓ} : {A : Type ℓ} → (ℕ → A) → ℕ → A → ℕ → A
update f a v b = if a == b then v else f b

pub update_self {ℓ} : {A : Type ℓ} (f : ℕ → A) (a : ℕ) (v : A) → update f a v a ≡ v
update_self f a v = if_rule (λ x. x ≡ v) (a == a) (λ _. refl) (λ e. absurd (ground arith))

-- Assignments to the fields of a connection.
abbrev pub modify : ℕ → (Connection → Connection) → Sdk → Sdk
modify c f s = record s { objects = update s.objects c (f (s.objects c)) }

abbrev pub emit : Event → Sdk → Sdk
emit e s = record s { events = s.events ++ (e ∷ []) }

abbrev pub arm_timer : Bool → ℕ → Callback → Sdk → Sdk
arm_timer repeats delay callback s = record s {
  timers =
      s.timers
      ++ (record { id = s.next_id; delay = delay; repeats = repeats; callback = callback } ∷ []);
  next_id = suc s.next_id;
}

-- setTimeout: the timer's number is `s.next_id`.
abbrev pub arm : ℕ → Callback → Sdk → Sdk
arm = arm_timer false

-- setInterval
abbrev pub arm_interval : ℕ → Callback → Sdk → Sdk
arm_interval = arm_timer true

unfoldable pub without_side : String → Kind → Table Pair → Table Pair
without_side uuid kind connections = elim (get uuid connections) [
  | none ↦ connections
  | some pair ↦
      if is_empty_pair (drop_side kind pair)
      then delete uuid connections
      else set uuid (drop_side kind pair) connections
]

-- `delete connections[type]`, and the peer's entry goes with its last direction.
abbrev pub remove_side : String → Kind → Sdk → Sdk
remove_side uuid kind s = record s { connections = without_side uuid kind s.connections }

abbrev pub suspend : Suspended → Sdk → Sdk
suspend w s = record s { suspended = s.suspended ++ (w ∷ []) }

-- Sends on a data channel; `outbox` keeps what was sent.
abbrev pub push_message : Message → Option DataChannel → Option DataChannel
push_message m none = none
push_message m (some channel) = some (record channel { outbox = channel.outbox ++ (m ∷ []) })

abbrev pub send : ℕ → Message → Sdk → Sdk
send c m = modify c (λ conn. record conn { data_channel = push_message m conn.data_channel })

-- connection.dataChannel && connection.dataChannel.readyState === 'open'
abbrev pub has_open_channel : Connection → Bool
has_open_channel conn = elim conn.data_channel [ none ↦ false | some channel ↦ channel.is_open ]

-- Whether `send` on the data channel does not throw.
abbrev pub channel_sends : Connection → Bool
channel_sends conn = elim conn.data_channel [ none ↦ false | some channel ↦ channel.sends ]

-- A bye on an open channel; an exception is caught and logged.
unfoldable pub say_bye : ℕ → Sdk → Sdk
say_bye c s =
    if has_open_channel (s.objects c) && channel_sends (s.objects c) then send c bye s else s

unfoldable pub without_timer : ℕ → List Timer → List Timer
without_timer i = filter (λ t. not (t.id == i))

unfoldable pub cleared : Option ℕ → List Timer → List Timer
cleared none timers = timers
cleared (some i) timers = without_timer i timers

-- clearTimeout, clearInterval, where the field holds a timer.
abbrev pub disarm : Option ℕ → Sdk → Sdk
disarm o s = record s { timers = cleared o s.timers }

unfoldable pub is_current_in : ℕ → String → Kind → Table Pair → Bool
is_current_in c uuid kind connections = elim (get uuid connections) [
  | none ↦ false
  | some pair ↦ is_address c (side kind pair)
]

-- `_isCurrentConnection`
abbrev pub is_current : ℕ → Sdk → Bool
is_current c s = is_current_in c (s.objects c).uuid (s.objects c).kind s.connections

abbrev pub without_recovery_timers : Connection → Connection
without_recovery_timers conn = record conn {
  disconnect_timer = none;
  recovery_timer = none;
  connect_timer = none;
  relay_restore_timer = none;
}

-- `_clearConnectionRecoveryTimers`
abbrev pub clear_recovery_timers : ℕ → Sdk → Sdk
clear_recovery_timers c s =
    let conn = s.objects c in
    modify c without_recovery_timers (
      disarm conn.relay_restore_timer
        (disarm conn.connect_timer (disarm conn.recovery_timer (disarm conn.disconnect_timer s))))

-- `_stopPingMonitoring`
abbrev pub stop_ping_monitoring : ℕ → Sdk → Sdk
stop_ping_monitoring c s =
    modify c (λ conn. record conn { ping_timer = none }) (disarm (s.objects c).ping_timer s)

abbrev pub shut_channel : Option DataChannel → Option DataChannel
shut_channel none = none
shut_channel (some channel) = some (record channel { is_open = false })

-- connection.pc.close(), which also closes the data channel.
abbrev pub close_pc : ℕ → Sdk → Sdk
close_pc c = modify c (λ conn. record conn {
  pc = record conn.pc {
    is_closed = true;
    peer_state = PeerState.closed;
    ice_state = IceState.closed;
  };
  data_channel = shut_channel conn.data_channel;
})

abbrev pub tracked_stream : Connection → Table Stream → Option Stream
tracked_stream conn streams = elim conn.stream_id [
  | none ↦ none
  | some stream_id ↦ get stream_id streams
]

abbrev pub tracked : Connection → StreamState → ℕ → Option Stream → Table Stream → Table Stream
tracked conn state now none streams = streams
tracked conn state now (some stream) streams = elim conn.stream_id [
  | none ↦ streams
  | some stream_id ↦
      set stream_id
        (record stream {
          state = state;
          last_seen = now;
          uuid = if str_eq conn.uuid "" then stream.uuid else some conn.uuid;
        })
        streams
]

-- `_setTrackedStreamState`
abbrev pub set_tracked_stream_state : ℕ → StreamState → Sdk → Sdk
set_tracked_stream_state c state s = record s {
  streams = tracked (s.objects c) state s.now (tracked_stream (s.objects c) s.streams) s.streams;
}
