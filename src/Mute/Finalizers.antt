-- ===== src/Mute/Finalizers.antt =====
-- The timers of the finalizers.
use ninja_vst3_plugin.Prelude.{
  ℕ, ◌<◌, String, Bool, true, false, not, ◌&&◌, ◌||◌, Option, none, some, List, [], ◌∷◌, ◌++◌, ◌==◌,
  ◌≡◌, ◌≢◌, refl, arith, if_rule, filter, any,
}
use ninja_vst3_plugin.Mute.State.{
  Cause, Monitor, Action, evaluate, report, Finalizer, Monitors, monitor_of, forget, alter,
  is_effectively_muted, send_muted_state, broadcast, finish, set_finalizer, cancel, cancel_of,
  schedule,
}
use ninja_vst3_plugin.Mute.{
  same, dispatch, unmonitor, unmonitor_each, skip_send, send_final, given_back, clean_up, flush,
  flush_each, act,
}

abbrev pub is_pending : ℕ → List ℕ → Bool
is_pending f l = any (λ g. g == f) l

-- Each timer that is armed belongs to a finalizer that exists, is not finished and is pending.
pub record IsTracked (s : Monitors) : Type 0 where
  pub unfinished : (f : ℕ) → (s.finalizers f).is_armed ≡ true → (s.finalizers f).finished ≡ false
  pub pends : (f : ℕ) → (s.finalizers f).is_armed ≡ true → is_pending f s.pending ≡ true
  pub exists : (f : ℕ) → (s.finalizers f).is_armed ≡ true → f < s.next_finalizer

-- The finalizers stay as they are.
pub record IsQuiet (s r : Monitors) : Type 0 where
  pub finalizers : r.finalizers ≡ s.finalizers
  pub pending : r.pending ≡ s.pending
  pub next : r.next_finalizer ≡ s.next_finalizer

IsQuiet-IsTracked : {s r : Monitors} → IsQuiet s r → IsTracked s → IsTracked r
IsQuiet-IsTracked q h = record {
  unfinished = λ f. rw q.finalizers (h.unfinished f);
  pends = λ f. rw (q.finalizers, q.pending) (h.pends f);
  exists = λ f. rw (q.finalizers, q.next) (h.exists f);
}

filter-is_pending :
    (f g : ℕ) (l : List ℕ)
    → f ≢ g
    → is_pending g l ≡ true
    → is_pending g (filter (λ k. not (k == f)) l) ≡ true
filter-is_pending f g [] ne h = h
filter-is_pending f g (k ∷ l) ne h = ground (arith, ne, h, filter-is_pending f g l ne)

append-is_pending :
    (f g : ℕ) (l : List ℕ) → is_pending g (l ++ (f ∷ [])) ≡ (is_pending g l || (f == g))
append-is_pending f g [] = ground arith
append-is_pending f g (k ∷ l) = ground (arith, append-is_pending f g l)

finish-IsTracked : (f : ℕ) (s : Monitors) → IsTracked s → IsTracked (finish f s)
unfolding finish
finish-IsTracked f s h = record {
  unfinished = λ g armed. ground (arith, h.unfinished g, armed);
  pends = λ g armed. ground (arith, h.pends g, armed, filter-is_pending f g s.pending);
  exists = λ g armed. ground (arith, h.exists g, armed);
}

pub schedule-IsTracked :
    (m delay : ℕ) (action : Action) (s : Monitors)
    → IsTracked s
    → IsTracked (schedule m delay action s)
unfolding schedule
schedule-IsTracked m delay action s h = record {
  unfinished = λ g armed. ground (arith, h.unfinished g, armed);
  pends =
      λ g armed. ground (arith, h.pends g, armed, append-is_pending s.next_finalizer g s.pending);
  exists = λ g armed. ground (arith, h.exists g, armed);
}

-- No timer is armed by it, and the timers stay tracked.
pub record Calms (s r : Monitors) : Type 0 where
  pub tracked : IsTracked s → IsTracked r
  pub armed : (f : ℕ) → (r.finalizers f).is_armed ≡ true → (s.finalizers f).is_armed ≡ true

pub Calms-refl : (s : Monitors) → Calms s s
Calms-refl s = record { tracked = λ h. h; armed = λ f e. e }

pub Calms-trans : {s t u : Monitors} → Calms s t → Calms t u → Calms s u
Calms-trans a b = record {
  tracked = λ h. b.tracked (a.tracked h);
  armed = λ f e. a.armed f (b.armed f e);
}

pub IsQuiet-Calms : {s r : Monitors} → IsQuiet s r → Calms s r
IsQuiet-Calms q = record { tracked = IsQuiet-IsTracked q; armed = λ f e. rw (← q.finalizers) e }

pub alter-Calms : (m : ℕ) (f : Monitor → Monitor) (s : Monitors) → Calms s (alter m f s)
alter-Calms m f s = IsQuiet-Calms (record { finalizers = refl; pending = refl; next = refl })

pub send_muted_state-Calms :
    (t : ℕ) (muted : Bool) (target : Option String) (s : Monitors)
    → Calms s (send_muted_state t muted target s)
unfolding send_muted_state
send_muted_state-Calms t muted target s = IsQuiet-Calms (ground arith)

pub broadcast-Calms :
    (t : ℕ) (muted : Bool) (cause : Cause) (s : Monitors) → Calms s (broadcast t muted cause s)
unfolding broadcast send_muted_state
broadcast-Calms t muted cause s = IsQuiet-Calms (ground arith)

pub finish-Calms : (f : ℕ) (s : Monitors) → Calms s (finish f s)
unfolding finish
finish-Calms f s = record { tracked = finish-IsTracked f s; armed = λ g e. ground (arith, e) }

pub cancel-Calms : (f : ℕ) (s : Monitors) → Calms s (cancel f s)
unfolding cancel
cancel-Calms f s =
    if_rule (Calms s) (s.finalizers f).finished (λ _. Calms-refl s)
      (λ _. Calms-trans (finish-Calms f s) (
        alter-Calms (s.finalizers f).monitor (λ x. record x { pending_finalizer = none })
          (finish f s)))

pub cancel_of-Calms : (m : ℕ) (s : Monitors) → Calms s (cancel_of m s)
unfolding cancel_of
cancel_of-Calms m s =
    elim (s.objects m).pending_finalizer
      as (λ (o : Option ℕ).
        Calms s (elim o [ none ↦ s | some f ↦ set_finalizer m none (cancel f s) ])) [
          | none ↦ Calms-refl s
          | some f ↦
              Calms-trans (cancel-Calms f s)
                (alter-Calms m (λ x. record x { pending_finalizer = none }) (cancel f s))
        ]

pub forget-Calms :
    (m t : ℕ) (s : Monitors)
    → Calms s (record (alter m given_back s) { monitors = forget t s.monitors })
forget-Calms m t s = IsQuiet-Calms (record { finalizers = refl; pending = refl; next = refl })

pub unmonitor-Calms : (t : ℕ) (s : Monitors) → Calms s (unmonitor t skip_send s)
unfolding unmonitor send_final
unmonitor-Calms t s =
    elim (monitor_of t s.monitors)
      as (λ (o : Option ℕ). Calms s (elim o [
        | none ↦ s
        | some m ↦
            let told_last = alter m given_back (cancel_of m s) in
            record told_last { monitors = forget t told_last.monitors }
      ])) [
        | none ↦ Calms-refl s
        | some m ↦ Calms-trans (cancel_of-Calms m s) (forget-Calms m t (cancel_of m s))
      ]

pub clean_up-Calms : (cleanup : Bool) (t : ℕ) (s : Monitors) → Calms s (clean_up cleanup t s)
clean_up-Calms true t s = unmonitor-Calms t s
clean_up-Calms false t s = Calms-refl s

pub dispatch-Calms :
    (m : ℕ) (force cleanup : Bool) (cause : Cause) (s : Monitors)
    → Calms s (dispatch m force cleanup cause s)
unfolding dispatch
dispatch-Calms m force cleanup cause s =
    let t = (s.objects m).track in
    let now = is_effectively_muted (s.tracks t) in
    let idle = set_finalizer m none s in
    let noted = alter m (λ x. record x { last_state = now }) idle in
    let first = alter-Calms m (λ x. record x { pending_finalizer = none }) s in
    if_rule (Calms s) (not force && same now (s.objects m).last_state)
      (λ _. Calms-trans first (clean_up-Calms cleanup t idle))
      (λ _. Calms-trans first (
        Calms-trans (alter-Calms m (λ x. record x { last_state = now }) idle) (
          Calms-trans (broadcast-Calms t now cause noted)
            (clean_up-Calms cleanup t (broadcast t now cause noted)))))

pub act-Calms : (x : Finalizer) (s : Monitors) → Calms s (act x s)
unfolding act
act-Calms x s =
    elim x.action
      as (λ (a : Action). Calms s (elim a [
        | evaluate force cleanup cause ↦ dispatch x.monitor force cleanup cause s
        | report muted cause ↦ broadcast (s.objects x.monitor).track muted cause s
      ])) [
        | evaluate force cleanup cause ↦ dispatch-Calms x.monitor force cleanup cause s
        | report muted cause ↦ broadcast-Calms (s.objects x.monitor).track muted cause s
      ]

pub flush-Calms : (f : ℕ) (s : Monitors) → Calms s (flush f s)
unfolding flush
flush-Calms f s =
    let x = s.finalizers f in
    let acted = act x (finish f s) in
    if_rule (Calms s) x.finished (λ _. Calms-refl s)
      (λ _. Calms-trans (finish-Calms f s) (
        Calms-trans (act-Calms x (finish f s))
          (alter-Calms x.monitor (λ y. record y { pending_finalizer = none }) acted)))

pub flush_each-Calms : (fs : List ℕ) (s : Monitors) → Calms s (flush_each fs s)
unfolding flush_each
flush_each-Calms [] s = Calms-refl s
flush_each-Calms (f ∷ fs) s = Calms-trans (flush-Calms f s) (flush_each-Calms fs (flush f s))

pub unmonitor_each-Calms : (ts : List ℕ) (s : Monitors) → Calms s (unmonitor_each ts s)
unfolding unmonitor_each
unmonitor_each-Calms [] s = Calms-refl s
unmonitor_each-Calms (t ∷ ts) s =
    Calms-trans (unmonitor-Calms t s) (unmonitor_each-Calms ts (unmonitor t skip_send s))
