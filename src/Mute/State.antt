-- ===== src/Mute/State.antt =====
-- The objects of the monitors of published video tracks, their reports and their finalizers.
use ninja_vst3_plugin.Prelude.{
  ℕ, suc, String, Bool, true, false, not, ◌||◌, Option, none, some, List, [], ◌∷◌, ◌++◌, filter,
  ◌==◌, if◌then◌else◌,
}
use ninja_vst3_plugin.Peer.State.{update}

-- The reasons given with a report.
pub data Cause : Type 0 where
  initial refreshed mute unmute ended stop enabled_toggle poll force_muted monitor_stopped sync
        stop_publishing :
      Cause

-- What the code reads of a MediaStreamTrack. `is_redefinable` holds where `canRedefineEnabled` does
-- and the property is redefined without an error; `has_events` and `has_stop` are the tests for
-- `addEventListener` and `stop`.
pub record Track : Type 0 where
  pub is_video : Bool
  pub is_ended : Bool
  pub enabled : Bool
  pub muted : Bool
  pub is_redefinable : Bool
  pub has_events : Bool
  pub has_stop : Bool

-- A monitor; `restores_enabled`, `restores_stop`, `listens` and `polls` are set where the track's
-- `enabled` and `stop` are replaced, its events are listened to, and the poller runs.
pub record Monitor : Type 0 where
  pub track : ℕ
  pub last_state : Bool
  pub restores_enabled : Bool
  pub restores_stop : Bool
  pub listens : Bool
  pub polls : Bool
  pub pending_finalizer : Option ℕ
  pub finalizing : Bool

-- What a finalizer does: `emitState`'s dispatch for its monitor, or the final report of a monitor
-- that ended.
pub data Action : Type 0 where
  evaluate : (force cleanup : Bool) → Cause → Action
  report : (muted : Bool) → Cause → Action

pub record Finalizer : Type 0 where
  pub monitor : ℕ
  pub action : Action
  pub delay : ℕ
  pub finished : Bool
  pub is_armed : Bool

-- A message to the viewers, all or one, and the event `publisherVideoMuteState`.
pub data Output : Type 0 where
  told : (track : ℕ) (muted : Bool) (target : Option String) → Output
  changed : (track : ℕ) (muted : Bool) → Cause → Output

pub record Monitors : Type 0 where
  pub publishing : Bool
  pub tracks : ℕ → Track
  pub monitors : List (ℕ × ℕ)
  pub objects : ℕ → Monitor
  pub next_monitor : ℕ
  pub finalizers : ℕ → Finalizer
  pub pending : List ℕ
  pub next_finalizer : ℕ
  pub outputs : List Output

-- OUTBOUND_VIDEO_STOP_MUTE_DELAY_MS
abbrev pub stop_mute_delay : ℕ
stop_mute_delay = 500

-- _outboundVideoMonitors.get(track)
unfoldable pub monitor_of : ℕ → List (ℕ × ℕ) → Option ℕ
monitor_of t [] = none
monitor_of t ((u, m) ∷ rest) = let found = monitor_of t rest in if u == t then some m else found

unfoldable pub forget : ℕ → List (ℕ × ℕ) → List (ℕ × ℕ)
forget t [] = []
forget t ((u, m) ∷ rest) = let others = forget t rest in if u == t then others else (u, m) ∷ others

abbrev pub alter : ℕ → (Monitor → Monitor) → Monitors → Monitors
alter m f s = record s { objects = update s.objects m (f (s.objects m)) }

-- `track` itself is never missing where it is asked for.
unfoldable pub is_effectively_muted : Track → Bool
is_effectively_muted track = track.is_ended || not track.enabled || track.muted

-- `_sendVideoMutedState`; what becomes of the message is left to Data.Send.
unfoldable pub send_muted_state : ℕ → Bool → Option String → Monitors → Monitors
send_muted_state t muted target s =
    if s.publishing then record s { outputs = s.outputs ++ (told t muted target ∷ []) } else s

-- `broadcastState`, and the same two statements in `_unmonitorOutboundVideoTrack`.
unfoldable pub broadcast : ℕ → Bool → Cause → Monitors → Monitors
broadcast t muted cause s =
    let sent = send_muted_state t muted none s in
    record sent { outputs = sent.outputs ++ (changed t muted cause ∷ []) }

-- What `flush` and `cancel` share: the finalizer is finished, its timer cleared, and it is not pending.
unfoldable pub finish : ℕ → Monitors → Monitors
finish f s = record s {
  finalizers =
      update s.finalizers f (record (s.finalizers f) { finished = true; is_armed = false });
  pending = filter (λ g. not (g == f)) s.pending;
}

-- monitor.pendingFinalizer = …
abbrev pub set_finalizer : ℕ → Option ℕ → Monitors → Monitors
set_finalizer m f s = alter m (λ x. record x { pending_finalizer = f }) s

unfoldable pub cancel : ℕ → Monitors → Monitors
cancel f s =
    if (s.finalizers f).finished
    then s
    else set_finalizer (s.finalizers f).monitor none (finish f s)

-- The pending finalizer of a monitor is cancelled.
unfoldable pub cancel_of : ℕ → Monitors → Monitors
cancel_of m s = elim (s.objects m).pending_finalizer [
  | none ↦ s
  | some f ↦ set_finalizer m none (cancel f s)
]

-- `_scheduleVideoMuteFinalizer`, assigned to the monitor.
unfoldable pub schedule : ℕ → ℕ → Action → Monitors → Monitors
schedule m delay action s = set_finalizer m (some s.next_finalizer) (record s {
  finalizers =
      update s.finalizers s.next_finalizer
        (record { monitor = m; action = action; delay = delay; finished = false; is_armed = true });
  pending = s.pending ++ (s.next_finalizer ∷ []);
  next_finalizer = suc s.next_finalizer;
})
