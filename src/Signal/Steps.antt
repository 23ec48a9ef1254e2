-- ===== src/Signal/Steps.antt =====
-- The sending side as a run of what the environment does.
use ninja_vst3_plugin.Prelude.{
  ℕ, Bool, ◌||◌, Option, none, some, List, [], ◌∷◌, ◌++◌, take_out, if◌then◌else◌,
}
use ninja_vst3_plugin.Signal.{
  Candidate, Await, for_channel, for_socket, Link, handle_ice_candidate, bundle_elapsed, encrypted,
}

-- Candidates are gathered, the bundle's timer fires if it is armed, one of the encryptions under way
-- ends, the channel opens, closes or fails, and the socket opens or closes.
pub data Sending : Type 0 where
  gathered : Option Candidate → Sending
  elapsed : Sending
  encryption_ended : ℕ → Sending
  channel_is : (is_open sends : Bool) → Sending
  socket_is : Bool → Sending

module _ (protected : Bool) (encrypt : List Candidate → Option ℕ) where
  unfoldable pub step : Sending → Link → Link
  step (gathered candidate) l = handle_ice_candidate protected encrypt candidate l
  step elapsed l = elim l.timer [ none ↦ l | some _ ↦ bundle_elapsed protected encrypt l ]
  step (encryption_ended i) l = elim (take_out i l.awaits) [
    | none ↦ l
    | some (w, rest) ↦ encrypted protected encrypt w (record l { awaits = rest })
  ]
  step (channel_is is_open sends) l = record l { is_open = is_open; sends = sends }
  step (socket_is open_now) l = record l { socket_open = open_now }

  unfoldable pub run : List Sending → Link → Link
  run [] l = l
  run (x ∷ xs) l = run xs (step x l)

  -- What is gathered in a run.
  unfoldable pub collected : List Sending → List Candidate
  collected [] = []
  collected (gathered none ∷ xs) = collected xs
  collected (gathered (some candidate) ∷ xs) = candidate ∷ collected xs
  collected (elapsed ∷ xs) = collected xs
  collected (encryption_ended i ∷ xs) = collected xs
  collected (channel_is is_open sends ∷ xs) = collected xs
  collected (socket_is open_now ∷ xs) = collected xs

  -- The bundle of an encryption that ends.
  abbrev pub bundle_of : Await → List Candidate
  bundle_of (for_channel session candidate) = []
  bundle_of (for_socket session candidates) = candidates

  -- The bundle whose turn to go over the socket comes in a step, while the socket is not open.
  unfoldable pub dropped : Sending → Link → List Candidate
  dropped (gathered candidate) l = []
  dropped elapsed l = elim l.timer [
    | none ↦ []
    | some _ ↦ if protected || l.socket_open then [] else l.bundle
  ]
  dropped (encryption_ended i) l = elim (take_out i l.awaits) [
    | none ↦ []
    | some (w, rest) ↦ if l.socket_open then [] else bundle_of w
  ]
  dropped (channel_is is_open sends) l = []
  dropped (socket_is open_now) l = []

  unfoldable pub lost : List Sending → Link → List Candidate
  lost [] l = []
  lost (x ∷ xs) l = dropped x l ++ lost xs (step x l)
