-- ===== src/Peer/Ping/Misses.antt =====
-- When a viewer asks for an ICE restart.
use ninja_vst3_plugin.Prelude.{
  ℕ, suc, ◌+◌, ◌-◌, ◌*◌, ◌≤◌, ◌≡◌, refl, ◌↔◌, ◌∙◌, String, Bool, true, false, Option, none, some,
  [], ◌∷◌, ◌++◌, arith, Option-cases, inl, inr,
}
use ninja_vst3_plugin.Prelude.Table.{get}
use ninja_vst3_plugin.Peer.Types.{Pair, Sdk, missed_pings, ice_restart}
use ninja_vst3_plugin.Peer.State.{modify, has_open_channel, channel_sends}
use ninja_vst3_plugin.Peer.Ping.{
  ask_for_restart, has_timed_out, second_miss, ping_ticked, send_ping, miss, try_ping, ping_pair,
  or_viewer, set_pending, set_pending_pair,
}

-- An unanswered ping is missed after one and a half intervals, and not before five seconds more than
-- an interval.
pub has_timed_out_iff :
    (interval elapsed : ℕ)
    → (has_timed_out interval elapsed ≡ true)
      ↔ ((interval * 3 ≤ elapsed * 2) × (interval + 5000 ≤ elapsed))
unfolding has_timed_out
has_timed_out_iff interval elapsed = ground arith

try_ping_events : (now : ℕ) (o : Option ℕ) (s : Sdk) → (try_ping now o s).1.events ≡ s.events
unfolding try_ping
try_ping_events now none s = refl
try_ping_events now (some c) s = ground arith

or_viewer_events :
    (now : ℕ) (o : Option ℕ) (r : Bool × Sdk) → (or_viewer now o r).1.events ≡ r.1.events
or_viewer_events now o (true, s) = refl
or_viewer_events now o (false, s) = try_ping_events now o s

set_pending_events : (now : ℕ) (o : Option ℕ) (s : Sdk) → (set_pending now o s).events ≡ s.events
set_pending_events now none s = refl
set_pending_events now (some c) s = refl

ping_pair_events :
    (now : ℕ) (pair : Pair) (s : Sdk)
    → (ping_pair now pair (set_pending_pair now pair s)).1.events ≡ s.events
unfolding ping_pair
ping_pair_events now pair s =
    let marked = set_pending_pair now pair s in
    or_viewer_events now pair.viewer_side (try_ping now pair.publisher_side marked)
    ∙ try_ping_events now pair.publisher_side marked
    ∙ set_pending_events now pair.viewer_side (set_pending now pair.publisher_side s)
    ∙ set_pending_events now pair.publisher_side s

-- A ping emits no event.
send_ping_events : (uuid : String) (s : Sdk) → (send_ping uuid s).1.events ≡ s.events
unfolding send_ping
send_ping_events uuid s = elim (Option-cases (get uuid s.connections)) [
  | inl e ↦ ground (arith, e)
  | inr (pair, e) ↦ ground (arith, e, ping_pair_events s.now pair s)
]

record IsAsked (c : ℕ) (s t : Sdk) : Type 0 where
  asked : t.events ≡ s.events ++ ice_restart c missed_pings ∷ []
  anew : (t.objects c).missed_pings ≡ 0
  none_waits : (t.objects c).pending_ping ≡ none

ask_for_restart_events :
    (c : ℕ) (s : Sdk)
    → has_open_channel (s.objects c) ≡ true
    → channel_sends (s.objects c) ≡ true
    → (ask_for_restart c s).events ≡ s.events ++ ice_restart c missed_pings ∷ []
unfolding ask_for_restart
ask_for_restart_events c s o d = rw (o, d)

second_miss-IsAsked :
    (c : ℕ) (s : Sdk)
    → has_open_channel (s.objects c) ≡ true
    → channel_sends (s.objects c) ≡ true
    → IsAsked c s (second_miss c s)
unfolding second_miss
second_miss-IsAsked c s o d =
    let counted = modify c (λ conn. record conn { missed_pings = suc conn.missed_pings }) s in
    record {
      asked = ask_for_restart_events c counted (ground arith) (ground arith);
      anew = ground arith;
      none_waits = ground arith;
    }

-- While a ping waits, a tick does nothing before the time is over. At the first miss it sends the
-- next ping and emits nothing. At the second it asks for an ICE restart, once, and starts to count
-- anew.
pub ping_ticked_misses :
    (c sent : ℕ) (s : Sdk)
    → has_open_channel (s.objects c) ≡ true
    → channel_sends (s.objects c) ≡ true
    → (s.objects c).pending_ping ≡ some (suc sent)
    → (has_timed_out s.auto_ping_interval (s.now - suc sent) ≡ false → ping_ticked c s ≡ s)
      × (has_timed_out s.auto_ping_interval (s.now - suc sent) ≡ true
          → ((s.objects c).missed_pings ≡ 0 → (ping_ticked c s).events ≡ s.events)
            × ((s.objects c).missed_pings ≡ 1
                → ((ping_ticked c s).events ≡ s.events ++ ice_restart c missed_pings ∷ [])
                  × (((ping_ticked c s).objects c).missed_pings ≡ 0)
                  × (((ping_ticked c s).objects c).pending_ping ≡ none)))
unfolding ping_ticked
ping_ticked_misses c sent s o d p =
    let again = second_miss-IsAsked c s o d in
    (
      λ early. ground arith,
      λ late. (
        λ first. ground (arith, send_ping_events (s.objects c).uuid (miss c s)),
        λ second. (
          ground (arith, again.asked),
          ground (arith, again.anew),
          ground (arith, again.none_waits),
        ),
      ),
    )

-- While the time of a ping that waits is not over, a tick on an open channel does nothing.
pub ping_ticked_waiting :
    (c sent : ℕ) (s : Sdk)
    → has_open_channel (s.objects c) ≡ true
    → channel_sends (s.objects c) ≡ true
    → (s.objects c).pending_ping ≡ some (suc sent)
    → has_timed_out s.auto_ping_interval (s.now - suc sent) ≡ false
    → ping_ticked c s ≡ s
ping_ticked_waiting c sent s opened sends waits early =
    (ping_ticked_misses c sent s opened sends waits).0 early

-- The second ping in a row whose time is over makes a tick ask for an ICE restart, once; the count of
-- misses and the ping start anew.
pub ping_ticked_second_miss :
    (c sent : ℕ) (s : Sdk)
    → has_open_channel (s.objects c) ≡ true
    → channel_sends (s.objects c) ≡ true
    → (s.objects c).pending_ping ≡ some (suc sent)
    → has_timed_out s.auto_ping_interval (s.now - suc sent) ≡ true
    → (s.objects c).missed_pings ≡ 1
    → ((ping_ticked c s).events ≡ s.events ++ ice_restart c missed_pings ∷ [])
      × (((ping_ticked c s).objects c).missed_pings ≡ 0)
      × (((ping_ticked c s).objects c).pending_ping ≡ none)
ping_ticked_second_miss c sent s opened sends waits late second =
    ((ping_ticked_misses c sent s opened sends waits).1 late).1 second
