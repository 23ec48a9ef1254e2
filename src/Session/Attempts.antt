-- ===== src/Session/Attempts.antt =====
-- The attempts to reconnect, one after the other.
use ninja_vst3_plugin.Prelude.{
  ℕ, zero, suc, ◌<◌, true, false, List, [], ◌∷◌, ◌++◌, ◌≡◌, refl, arith, ◌∙◌,
}
use ninja_vst3_plugin.Peer.Types.{Sdk, Event, reconnect}
use ninja_vst3_plugin.Peer.Backoff.{reconnect_wait}
use ninja_vst3_plugin.Session.{
  attempt_reconnect, reconnect_settled, socket_closed, socket_opened, connect, disconnect,
  disconnect_flushed, addresses, tear_down, tear_down_all,
}
use ninja_vst3_plugin.Peer.State.{say_bye}
use ninja_vst3_plugin.Peer.View.{say_byes}
use mathlib.Core.List.{append_assoc}

-- The callback's failures in a row, each once the timer before has fired.
unfoldable pub failures : ℕ → Sdk → Sdk
failures zero s = s
failures (suc n) s = reconnect_settled false (failures n s)

abbrev pub Waits : ℕ → ℕ → ℕ → Sdk → Type 0
Waits delay most attempts s =
    (s.is_reconnecting ≡ true)
    × (s.reconnect_attempts ≡ attempts)
    × (s.max_reconnect_attempts ≡ most)
    × (s.reconnect_delay ≡ delay)

settled-Waits :
    (delay most attempts : ℕ) (s : Sdk)
    → Waits delay most attempts s
    → attempts < most
    → Waits delay most (suc attempts) (reconnect_settled false s)
unfolding reconnect_settled attempt_reconnect
settled-Waits delay most attempts s w less =
    (ground arith, ground arith, ground arith, ground arith)

failures-Waits :
    (n : ℕ) (s : Sdk)
    → s.is_reconnecting ≡ false
    → s.reconnect_attempts ≡ 0
    → n < s.max_reconnect_attempts
    → Waits s.reconnect_delay s.max_reconnect_attempts (suc n) (failures n (attempt_reconnect s))
unfolding failures attempt_reconnect
failures-Waits zero s idle none_yet less = (ground arith, ground arith, ground arith, ground arith)
failures-Waits (suc n) s idle none_yet less =
    settled-Waits s.reconnect_delay s.max_reconnect_attempts (suc n)
      (failures n (attempt_reconnect s)) (failures-Waits n s idle none_yet (ground arith)) less

-- What one more failure arms and tells.
failure_lem :
    (delay most attempts : ℕ) (s : Sdk)
    → Waits delay most attempts s
    → (attempts < most
        → (reconnect_settled false s).timers
          ≡ s.timers
            ++ (record {
              id = s.next_id;
              delay = reconnect_wait delay (suc attempts);
              repeats = false;
              callback = reconnect;
            }
                ∷ []))
      × (attempts ≡ most
          → ((reconnect_settled false s).is_reconnecting ≡ false)
            × ((reconnect_settled false s).events ≡ s.events ++ (Event.reconnect_failed ∷ []))
            × ((reconnect_settled false s).timers ≡ s.timers))
unfolding reconnect_settled attempt_reconnect
failure_lem delay most attempts s w =
    (λ less. ground arith, λ last. (ground arith, ground arith, ground arith))

-- From a lost socket on, without an attempt under way: as long as fewer attempts failed than are
-- allowed, the next one waits, for a delay that doubles up to 30 s, and is counted; the failure of the
-- last one allowed is told as `reconnectFailed`, arms nothing and ends the attempts.
pub failures_lem :
    (n : ℕ) (s : Sdk)
    → s.is_reconnecting ≡ false
    → s.reconnect_attempts ≡ 0
    → n < s.max_reconnect_attempts
    → Waits s.reconnect_delay s.max_reconnect_attempts (suc n) (failures n (attempt_reconnect s))
      × (suc n < s.max_reconnect_attempts
          → (failures (suc n) (attempt_reconnect s)).timers
            ≡ (failures n (attempt_reconnect s)).timers
              ++ (record {
                id = (failures n (attempt_reconnect s)).next_id;
                delay = reconnect_wait s.reconnect_delay (suc (suc n));
                repeats = false;
                callback = reconnect;
              }
                  ∷ []))
      × (suc n ≡ s.max_reconnect_attempts
          → ((failures (suc n) (attempt_reconnect s)).is_reconnecting ≡ false)
            × ((failures (suc n) (attempt_reconnect s)).events
                ≡ (failures n (attempt_reconnect s)).events ++ (Event.reconnect_failed ∷ []))
            × ((failures (suc n) (attempt_reconnect s)).timers
                ≡ (failures n (attempt_reconnect s)).timers))
unfolding failures
failures_lem n s idle none_yet less =
    let waits = failures-Waits n s idle none_yet less in
    let (next, last) =
      failure_lem s.reconnect_delay s.max_reconnect_attempts (suc n)
        (failures n (attempt_reconnect s)) waits in
    (waits, next, last)

say_byes-is_reconnecting :
    (cs : List ℕ) (s : Sdk) → (say_byes cs s).is_reconnecting ≡ s.is_reconnecting
unfolding say_byes say_bye
say_byes-is_reconnecting [] s = refl
say_byes-is_reconnecting (c ∷ cs) s = say_byes-is_reconnecting cs (say_bye c s) ∙ ground arith

disconnect-is_reconnecting : (s : Sdk) → (disconnect s).is_reconnecting ≡ s.is_reconnecting
unfolding disconnect
disconnect-is_reconnecting s = say_byes-is_reconnecting (addresses s.connections) _

tear_down_all-is_reconnecting :
    (cs : List ℕ) (s : Sdk) → (tear_down_all cs s).is_reconnecting ≡ s.is_reconnecting
unfolding tear_down_all tear_down
tear_down_all-is_reconnecting [] s = refl
tear_down_all-is_reconnecting (c ∷ cs) s = tear_down_all-is_reconnecting cs (tear_down c s)

disconnect_flushed-is_reconnecting :
    (s : Sdk)
    → ((disconnect_flushed s).is_reconnecting ≡ s.is_reconnecting)
      × ((disconnect_flushed s).is_connected ≡ false)
unfolding disconnect_flushed
disconnect_flushed-is_reconnecting s =
    (tear_down_all-is_reconnecting (addresses s.connections) s, refl)

lost_lem :
    (s : Sdk)
    → s.is_reconnecting ≡ true
    → s.is_connected ≡ false
    → ((socket_closed (socket_opened (connect s))).is_reconnecting ≡ true)
      × ((socket_closed (socket_opened (connect s))).timers ≡ s.timers)
      × ((socket_closed (socket_opened (connect s))).events
          ≡ s.events ++ (Event.connected ∷ Event.disconnected ∷ []))
unfolding connect socket_opened socket_closed attempt_reconnect
lost_lem s waits idle = (
  ground arith,
  ground arith,
  ground (arith, append_assoc s.events (Event.connected ∷ []) (Event.disconnected ∷ [])),
)

-- After a `disconnect` while an attempt to reconnect is under way, and a `connect` that opens a
-- socket, the loss of that socket starts no attempt, arms nothing and is told as a loss only: the
-- attempt that `disconnect` stopped still counts as under way.
pub disconnect-stays_reconnecting :
    (s : Sdk)
    → s.is_reconnecting ≡ true
    → ((socket_closed (socket_opened (connect (disconnect_flushed (disconnect s))))).is_reconnecting
        ≡ true)
      × ((socket_closed (socket_opened (connect (disconnect_flushed (disconnect s))))).timers
          ≡ (disconnect_flushed (disconnect s)).timers)
      × ((socket_closed (socket_opened (connect (disconnect_flushed (disconnect s))))).events
          ≡ (disconnect_flushed (disconnect s)).events
            ++ (Event.connected ∷ Event.disconnected ∷ []))
disconnect-stays_reconnecting s waits =
    let (same, closed) = disconnect_flushed-is_reconnecting (disconnect s) in
    lost_lem (disconnect_flushed (disconnect s)) (same ∙ (disconnect-is_reconnecting s ∙ waits))
      closed

-- From a lost socket on, without an attempt under way: after fewer failures than are allowed, less
-- one, the attempts are counted, and one more failure arms the next attempt, after a delay that
-- doubles up to 30 s, and leaves it waiting.
pub failures_next :
    (n : ℕ) (s : Sdk)
    → s.is_reconnecting ≡ false
    → s.reconnect_attempts ≡ 0
    → suc n < s.max_reconnect_attempts
    → Waits s.reconnect_delay s.max_reconnect_attempts
        (suc (suc n))
        (failures (suc n) (attempt_reconnect s))
      × ((failures (suc n) (attempt_reconnect s)).timers
          ≡ (failures n (attempt_reconnect s)).timers
            ++ (record {
              id = (failures n (attempt_reconnect s)).next_id;
              delay = reconnect_wait s.reconnect_delay (suc (suc n));
              repeats = false;
              callback = reconnect;
            }
                ∷ []))
failures_next n s idle none_yet less = (
  failures-Waits (suc n) s idle none_yet less,
  (failures_lem n s idle none_yet (ground arith)).1 less,
)

-- From a lost socket on, without an attempt under way, the failure of the last attempt allowed is
-- told as `reconnectFailed`, arms nothing and ends the attempts.
pub failures_last :
    (n : ℕ) (s : Sdk)
    → s.is_reconnecting ≡ false
    → s.reconnect_attempts ≡ 0
    → suc n ≡ s.max_reconnect_attempts
    → ((failures (suc n) (attempt_reconnect s)).is_reconnecting ≡ false)
      × ((failures (suc n) (attempt_reconnect s)).events
          ≡ (failures n (attempt_reconnect s)).events ++ (Event.reconnect_failed ∷ []))
      × ((failures (suc n) (attempt_reconnect s)).timers
          ≡ (failures n (attempt_reconnect s)).timers)
failures_last n s idle none_yet last = (failures_lem n s idle none_yet (ground arith)).2 last
