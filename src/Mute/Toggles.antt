-- ===== src/Mute/Toggles.antt =====
-- What the viewers know of a monitored track whose `enabled` and mute state change.
use ninja_vst3_plugin.Prelude.{
  ℕ, suc, Bool, true, false, Option, none, some, List, [], ◌∷◌, ◌++◌, if_rule, ◌==◌, ◌≡◌, refl, ◌∙◌,
  arith, if◌then◌else◌,
}
use ninja_vst3_plugin.Peer.State.{update}
use ninja_vst3_plugin.Mute.State.{
  Cause, initial, mute, unmute, enabled_toggle, poll, Track, Output, told, changed, Monitors, alter,
  is_effectively_muted, send_muted_state, broadcast, finish, set_finalizer, cancel, cancel_of,
}
use ninja_vst3_plugin.Mute.{same, dispatch, emit_state, watch, monitor_for}
use ninja_vst3_plugin.Mute.Events.{track_muted, enabled_set, polled}

-- The last report of a track that went to all viewers.
unfoldable pub last_told : ℕ → List Output → Option Bool
last_told t [] = none
last_told t (told u muted none ∷ rest) =
    let later = last_told t rest in
    elim later [ some b ↦ some b | none ↦ if u == t then some muted else none ]
last_told t (told u muted (some _) ∷ rest) = last_told t rest
last_told t (changed _ _ _ ∷ rest) = last_told t rest

last_told-append_event :
    (t u : ℕ) (muted : Bool) (cause : Cause) (l : List Output)
    → last_told t (l ++ (changed u muted cause ∷ [])) ≡ last_told t l
unfolding last_told
last_told-append_event t u muted cause [] = refl
last_told-append_event t u muted cause (told v b none ∷ rest) =
    rw (last_told-append_event t u muted cause rest) refl
last_told-append_event t u muted cause (told v b (some _) ∷ rest) =
    last_told-append_event t u muted cause rest
last_told-append_event t u muted cause (changed _ _ _ ∷ rest) =
    last_told-append_event t u muted cause rest

last_told-append :
    (t : ℕ) (muted : Bool) (l : List Output)
    → last_told t (l ++ (told t muted none ∷ [])) ≡ some muted
unfolding last_told
last_told-append t muted [] = ground arith
last_told-append t muted (told v b none ∷ rest) = rw (last_told-append t muted rest) refl
last_told-append t muted (told v b (some _) ∷ rest) = last_told-append t muted rest
last_told-append t muted (changed _ _ _ ∷ rest) = last_told-append t muted rest

broadcast-last_told :
    (t : ℕ) (muted : Bool) (cause : Cause) (s : Monitors)
    → s.publishing ≡ true
    → last_told t (broadcast t muted cause s).outputs ≡ some muted
unfolding broadcast send_muted_state
broadcast-last_told t muted cause s on = rw on (
    last_told-append_event t t muted cause (s.outputs ++ (told t muted none ∷ []))
    ∙ last_told-append t muted s.outputs)

-- The monitor `m` watches `t` while the stream is published, its state is the track's, and it is
-- what the viewers were told last.
pub record IsKnown (t m : ℕ) (s : Monitors) : Type 0 where
  pub publishes : s.publishing ≡ true
  pub watches : (s.objects m).track ≡ t
  pub replaces : (s.objects m).restores_enabled ≡ true
  pub hears : (s.objects m).listens ≡ true
  pub current : (s.objects m).last_state ≡ is_effectively_muted (s.tracks t)
  pub known : last_told t s.outputs ≡ some (s.objects m).last_state

-- What cancelling a finalizer leaves as it is.
cancel_of_lem :
    (m : ℕ) (s : Monitors)
    → ((cancel_of m s).publishing ≡ s.publishing)
      × ((cancel_of m s).outputs ≡ s.outputs)
      × ((cancel_of m s).tracks ≡ s.tracks)
      × (((cancel_of m s).objects m).track ≡ (s.objects m).track)
      × (((cancel_of m s).objects m).last_state ≡ (s.objects m).last_state)
      × (((cancel_of m s).objects m).restores_enabled ≡ (s.objects m).restores_enabled)
      × (((cancel_of m s).objects m).listens ≡ (s.objects m).listens)
unfolding cancel_of cancel finish
cancel_of_lem m s = (
  ground arith,
  ground arith,
  ground arith,
  ground arith,
  ground arith,
  ground arith,
  ground arith,
)

same_lem : (a b : Bool) → same a b ≡ true → a ≡ b
unfolding same
same_lem true b e = ground arith
same_lem false b e = ground arith

broadcast_lem :
    (t : ℕ) (muted : Bool) (cause : Cause) (s : Monitors)
    → ((broadcast t muted cause s).publishing ≡ s.publishing)
      × ((broadcast t muted cause s).objects ≡ s.objects)
      × ((broadcast t muted cause s).tracks ≡ s.tracks)
unfolding broadcast send_muted_state
broadcast_lem t muted cause s = (ground arith, ground arith, ground arith)

dispatch-IsKnown :
    (t m : ℕ) (cause : Cause) (s : Monitors)
    → s.publishing ≡ true
    → (s.objects m).track ≡ t
    → (s.objects m).restores_enabled ≡ true
    → (s.objects m).listens ≡ true
    → last_told t s.outputs ≡ some (s.objects m).last_state
    → IsKnown t m (dispatch m false false cause s)
unfolding dispatch
dispatch-IsKnown t m cause s on watches replaces hears known =
    let now = is_effectively_muted (s.tracks t) in
    let ready = alter m (λ x. record x { last_state = now }) (set_finalizer m none s) in
    ground (
      arith,
      same_lem now (s.objects m).last_state,
      broadcast_lem t now cause ready,
      broadcast-last_told t now cause ready,
    )

emit_state-IsKnown :
    (t m : ℕ) (cause : Cause) (s : Monitors)
    → s.publishing ≡ true
    → (s.objects m).track ≡ t
    → (s.objects m).restores_enabled ≡ true
    → (s.objects m).listens ≡ true
    → last_told t s.outputs ≡ some (s.objects m).last_state
    → IsKnown t m (emit_state m false 0 false cause s)
unfolding emit_state
emit_state-IsKnown t m cause s on watches replaces hears known =
    let (publishes, outputs, tracks, track, last, setter, heard) = cancel_of_lem m s in
    dispatch-IsKnown t m cause (cancel_of m s) (publishes ∙ on) (track ∙ watches)
      (setter ∙ replaces) (heard ∙ hears) (rw (outputs, last) known)

-- What the environment does to a track that is monitored and not stopped.
pub data Toggle : Type 0 where
  to_enabled : Bool → Toggle
  to_muted : Bool → Toggle
  time_passes : Toggle

unfoldable pub toggle : ℕ → Toggle → Monitors → Monitors
toggle m (to_enabled value) s = enabled_set m value s
toggle m (to_muted muted) s = track_muted m muted s
toggle m time_passes s = polled m s

unfoldable pub toggles : ℕ → List Toggle → Monitors → Monitors
toggles m [] s = s
toggles m (x ∷ xs) s = toggles m xs (toggle m x s)

written_lem :
    (t : ℕ) (before value : Bool) (tracks : ℕ → Track)
    → (tracks t).enabled ≡ before
    → same before value ≡ true
    → is_effectively_muted (update tracks t (record (tracks t) { enabled = value }) t)
      ≡ is_effectively_muted (tracks t)
unfolding is_effectively_muted same
written_lem t true value tracks b e = ground arith
written_lem t false value tracks b e = ground arith

toggle-IsKnown : (t m : ℕ) (x : Toggle) (s : Monitors) → IsKnown t m s → IsKnown t m (toggle m x s)
unfolding toggle polled track_muted enabled_set
toggle-IsKnown t m (to_enabled value) s h =
    let u = (s.objects m).track in
    let written = record s {
      tracks = update s.tracks u (record (s.tracks u) { enabled = value });
    } in
    let h_written =
      emit_state-IsKnown t m enabled_toggle written h.publishes h.watches h.replaces h.hears
        h.known in
    let unchanged = written_lem u (s.tracks u).enabled value s.tracks refl in
    ground
      (arith, h_written, unchanged, h.publishes, h.watches, h.replaces, h.hears, h.current, h.known)
toggle-IsKnown t m (to_muted muted) s h = rw h.hears (
    emit_state-IsKnown t m (if muted then mute else unmute) _ h.publishes h.watches h.replaces
      h.hears h.known)
toggle-IsKnown t m time_passes s h =
    if_rule (IsKnown t m) (s.objects m).polls
      (λ _. emit_state-IsKnown t m poll s h.publishes h.watches h.replaces h.hears h.known) (λ _. h)

toggles-IsKnown :
    (t m : ℕ) (xs : List Toggle) (s : Monitors) → IsKnown t m s → IsKnown t m (toggles m xs s)
unfolding toggles
toggles-IsKnown t m [] s h = h
toggles-IsKnown t m (x ∷ xs) s h = toggles-IsKnown t m xs (toggle m x s) (toggle-IsKnown t m x s h)

watch-IsKnown :
    (t : ℕ) (s : Monitors)
    → s.publishing ≡ true
    → (s.tracks t).is_redefinable ≡ true
    → (s.tracks t).has_events ≡ true
    → IsKnown t s.next_monitor (watch t s)
unfolding watch
watch-IsKnown t s on replaces hears =
    let track = s.tracks t in
    let added = record s {
      objects = update s.objects s.next_monitor (monitor_for t track);
      next_monitor = suc s.next_monitor;
      monitors = s.monitors ++ ((t, s.next_monitor) ∷ []);
    } in
    let muted = is_effectively_muted track in
    ground
      (arith, on, broadcast_lem t muted initial added, broadcast-last_told t muted initial added)

-- While the stream is published, a track whose `enabled` can be replaced and whose events can be
-- heard, that is newly monitored and then enabled, disabled, muted, unmuted and polled any number of
-- times, in any order, and not stopped, is known to the viewers as it is: the last report that went to
-- all of them is the track's state at the end.
pub toggles-last_told :
    (t : ℕ) (xs : List Toggle) (s : Monitors)
    → s.publishing ≡ true
    → (s.tracks t).is_redefinable ≡ true
    → (s.tracks t).has_events ≡ true
    → last_told t (toggles s.next_monitor xs (watch t s)).outputs
      ≡ some (is_effectively_muted ((toggles s.next_monitor xs (watch t s)).tracks t))
toggles-last_told t xs s on replaces hears =
    let h = toggles-IsKnown t s.next_monitor xs (watch t s) (watch-IsKnown t s on replaces hears) in
    rw h.known (rw h.current refl)
