-- ===== src/Peer/Ping.antt =====
-- `sendPing`, `_startPingMonitoring` and `_initiateICERestart` for a viewer: a viewer measures the
-- path by pings and asks for an ICE restart when two are missed.
pub mod Misses
use ninja_vst3_plugin.Prelude.{
  ℕ, suc, ◌+◌, ◌-◌, ◌*◌, ◌/◌, ◌≤◌, max, String, Bool, true, false, not, ◌&&◌, Option, none, some,
  List, [], ◌∷◌, leb, ◌==◌, str_eq, if◌then◌else◌,
}
use ninja_vst3_plugin.Prelude.Table.{get}
use ninja_vst3_plugin.Peer.Types.{
  Kind, viewer, publisher, Connection, Pair, Reason, missed_pings, Sdk, ping, ice_restart_request,
  ping_tick, ice_restart,
}
use ninja_vst3_plugin.Peer.State.{
  modify, emit, arm_interval, disarm, send, has_open_channel, channel_sends,
}

abbrev pub set_pending : ℕ → Option ℕ → Sdk → Sdk
set_pending now none s = s
set_pending now (some c) s = modify c (λ conn. record conn { pending_ping = some now }) s

abbrev pub set_pending_pair : ℕ → Pair → Sdk → Sdk
set_pending_pair now pair s =
    set_pending now pair.viewer_side (set_pending now pair.publisher_side s)

unfoldable pub set_pending_all : ℕ → List (String × Pair) → Sdk → Sdk
set_pending_all now [] s = s
set_pending_all now ((uuid, pair) ∷ rest) s = set_pending_all now rest (set_pending_pair now pair s)

-- A direction of one peer is tried: the Boolean tells whether the message was sent.
unfoldable pub try_ping : ℕ → Option ℕ → Sdk → Bool × Sdk
try_ping now none s = (false, s)
try_ping now (some c) s =
    if has_open_channel (s.objects c) && channel_sends (s.objects c)
    then (true, send c (ping now) s)
    else (false, s)

abbrev pub or_viewer : ℕ → Option ℕ → Bool × Sdk → Bool × Sdk
or_viewer now viewer_side (true, s) = (true, s)
or_viewer now viewer_side (false, s) = try_ping now viewer_side s

-- `_sendDataInternal` to one peer with preference 'any': the publisher side, else the viewer side.
unfoldable pub ping_pair : ℕ → Pair → Sdk → Bool × Sdk
ping_pair now pair s = or_viewer now pair.viewer_side (try_ping now pair.publisher_side s)

-- `sendPing(uuid)` for one peer.
unfoldable pub send_ping : String → Sdk → Bool × Sdk
send_ping uuid s = elim (get uuid s.connections) [
  | none ↦ (false, s)
  | some pair ↦ ping_pair s.now pair (set_pending_pair s.now pair s)
]

-- `_startPingMonitoring`
unfoldable pub start_ping_monitoring : ℕ → Sdk → Sdk
start_ping_monitoring c s = if not s.auto_ping_viewer then s else elim (s.objects c).kind [
  | publisher ↦ s
  | viewer ↦
      modify c (λ conn. record conn { ping_timer = some s.next_id })
        (arm_interval (max 1000 s.auto_ping_interval) (ping_tick c)
          (disarm (s.objects c).ping_timer s))
]

-- `_initiateICERestart(connection)` for a viewer's connection; an exception of `send` is passed on
-- to a promise that nobody awaits.
unfoldable pub ask_for_restart : ℕ → Sdk → Sdk
ask_for_restart c s =
    if has_open_channel (s.objects c) && channel_sends (s.objects c)
    then emit (ice_restart c missed_pings) (send c ice_restart_request s)
    else s

-- Math.max(interval * 1.5, interval + 5000), compared with whole milliseconds: a wait of `elapsed`
-- reaches it exactly if twice the wait reaches twice the limit.
unfoldable pub has_timed_out : ℕ → ℕ → Bool
has_timed_out interval elapsed = leb (max (interval * 3) ((interval + 5000) * 2)) (elapsed * 2)

abbrev pub miss : ℕ → Sdk → Sdk
miss c s =
    modify c (λ conn. record conn { missed_pings = suc conn.missed_pings; pending_ping = none }) s

-- Two misses: the restart, and the counters start anew.
unfoldable pub second_miss : ℕ → Sdk → Sdk
second_miss c s =
    modify c (λ conn. record conn { missed_pings = 0; pending_ping = none })
      (ask_for_restart c
        (modify c (λ conn. record conn { missed_pings = suc conn.missed_pings }) s))

-- The interval's callback. `none` and 0 in `pending_ping` are both falsy.
unfoldable pub ping_ticked : ℕ → Sdk → Sdk
ping_ticked c s =
    if not (has_open_channel (s.objects c)) then s else elim (s.objects c).pending_ping [
      | none ↦ (send_ping (s.objects c).uuid s).1
      | some sent ↦
          if sent == 0
          then (send_ping (s.objects c).uuid s).1
          else if not (has_timed_out s.auto_ping_interval (s.now - sent))
          then s
          else if leb 2 (suc (s.objects c).missed_pings)
          then second_miss c s
          else (send_ping (s.objects c).uuid (miss c s)).1
    ]
