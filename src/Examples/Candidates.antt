-- ===== src/Examples/Candidates.antt =====
-- ICE candidates on their way from one instance to another.
use ninja_vst3_plugin.Prelude.{
  ℕ, take_out, ◌+◌, Bool, true, false, if◌then◌else◌, Option, none, some, List, [], ◌∷◌, ◌≡◌, refl,
  arith,
}
use ninja_vst3_plugin.Prelude.Table.{get}
use ninja_vst3_plugin.Peer.Types.{Kind, viewer, publisher}
use ninja_vst3_plugin.Peer.Lookup.{get_connection}
use ninja_vst3_plugin.Signal.{
  Candidate, Link, message_of, handle_ice_candidate, add_to_bundle, bundle_elapsed, encrypted,
  send_on_socket, send_on_channel, handle_remote_ice_candidates,
}
use ninja_vst3_plugin.Signal.Steps.{
  Sending, gathered, elapsed, encryption_ended, channel_is, socket_is, run, collected, lost,
  dropped, step,
}
use ninja_vst3_plugin.Signal.Bundles.{carried, total, run-sent}
use ninja_vst3_plugin.Signal.Numbers.{number, awaited}
use ninja_vst3_plugin.Signal.Timers.{is_nil, is_idle, run-is_due}
use ninja_vst3_plugin.Signal.Delivery.{handle_remote_ice_candidates-message_of}
use ninja_vst3_plugin.Examples.Samples.{connected}

abbrev candidate : ℕ → Candidate
candidate n = record { line = n; is_blank = false }

abbrev link_of : Kind → Link
link_of kind = record {
  uuid = "bob";
  kind = kind;
  session = some "s1";
  is_open = false;
  sends = true;
  socket_open = true;
  bundle = [];
  timer = none;
  delay = 70;
  awaits = [];
  on_channel = [];
  on_socket = [];
  takes = λ _. true;
  added = [];
  settable = true;
  remote = [];
  errors = 0;
}

-- A cipher for one candidate that has a line; it fails for others, which then go unencrypted.
abbrev seal : List Candidate → Option ℕ
seal [] = none
seal (c ∷ []) = if c.is_blank then none else some c.line
seal (_ ∷ _ ∷ _) = none

abbrev unseal : ℕ → Option (List Candidate)
unseal text = some (candidate text ∷ [])

unseal-seal :
    (candidates : List Candidate) (text : ℕ)
    → seal candidates ≡ some text
    → unseal text ≡ some candidates
unseal-seal [] text e = absurd (ground arith)
unseal-seal (c ∷ []) text e = ground (arith, e)
unseal-seal (_ ∷ _ ∷ _) text e = absurd (ground arith)

-- The first candidate is sealed and sent, the second meets a closed socket, the third's channel fails
-- while it is sealed, so that it waits in the bundle.
abbrev gathering : List Sending
gathering =
    gathered (some (candidate 1))
    ∷ elapsed
    ∷ encryption_ended 0
    ∷ gathered (some (candidate 2))
    ∷ elapsed
    ∷ socket_is false
    ∷ encryption_ended 0
    ∷ channel_is true true
    ∷ gathered (some (candidate 3))
    ∷ channel_is false true
    ∷ encryption_ended 0
    ∷ gathered none
    ∷ []

abbrev every : Candidate → Bool
every c = true

abbrev afterwards : Link
afterwards = run true seal gathering (link_of viewer)

run-sent_example :
    total true seal unseal every afterwards
      + number every (lost true seal gathering (link_of viewer))
    ≡ 3
unfolding number collected carried awaited
run-sent_example = run-sent true seal unseal unseal-seal gathering (link_of viewer) every

lost_one : lost true seal gathering (link_of viewer) ≡ candidate 2 ∷ []
unfolding lost dropped step handle_ice_candidate add_to_bundle take_out bundle_elapsed encrypted
    send_on_socket
lost_one = refl

waiting_one : afterwards.bundle ≡ candidate 3 ∷ []
unfolding run step handle_ice_candidate add_to_bundle take_out bundle_elapsed encrypted
    send_on_socket send_on_channel
waiting_one = refl

run-is_due_example : is_nil afterwards.bundle ≡ is_idle afterwards.timer
run-is_due_example = (run-is_due true seal gathering (link_of viewer) refl refl (omega arith)).0

abbrev bundled : Link
bundled = record (link_of viewer) { bundle = candidate 1 ∷ [] }

handle_remote_ice_candidates-message_of_example :
    (handle_remote_ice_candidates true unseal
      (record (message_of true seal bundled bundled.bundle) { uuid = "bob" })
      connected
      (λ _. link_of publisher)
      1).added
    ≡ candidate 1 ∷ []
unfolding get_connection get
handle_remote_ice_candidates-message_of_example =
    handle_remote_ice_candidates-message_of true seal unseal "bob" bundled connected
      (λ _. link_of publisher) 1 unseal-seal refl refl
