-- ===== src/Data/Send/Delivery.antt =====
-- Where a message is delivered.
use ninja_vst3_plugin.Prelude.{
  ℕ, ◌≡◌, refl, ◌≢◌, inl, inr, String, Bool, true, false, ◌&&◌, Option, none, some, [], ◌∷◌, arith,
  Bool-cases, if◌then◌else◌,
}
use ninja_vst3_plugin.Prelude.Table.{get}
use ninja_vst3_plugin.Peer.Types.{Message, Pair, Sdk}
use ninja_vst3_plugin.Peer.State.{send, has_open_channel, channel_sends}
use ninja_vst3_plugin.Data.Send.{
  Preference, only_publisher, only_viewer, any_side, all_sides, unset, unknown, Progress,
  try_connection, any_of_pair, send_to_pair, over_channels, Sent, with_fallback, can_fall_back,
  send_data_internal,
}

-- A message can be sent on the channel of this direction now.
abbrev pub is_usable : Sdk → Option ℕ → Bool
is_usable s none = false
is_usable s (some c) = has_open_channel (s.objects c) && channel_sends (s.objects c)

abbrev pub usable : Sdk → Option ℕ → Option ℕ
usable s o = if is_usable s o then o else none

-- The direction that a preference chooses: the publisher side before the viewer side where any will
-- do, and no direction that cannot be used.
abbrev pub chosen : Preference → Pair → Sdk → Option ℕ
chosen only_publisher pair s = usable s pair.publisher_side
chosen only_viewer pair s = usable s pair.viewer_side
chosen any_side pair s =
    if is_usable s pair.publisher_side then pair.publisher_side else usable s pair.viewer_side
chosen all_sides pair s = none
chosen unset pair s = none
chosen unknown pair s = none

abbrev pub delivered : Message → Option ℕ → Sdk → Progress
delivered m none s = record { done = []; sdk = s }
delivered m (some c) s = record { done = c ∷ []; sdk = send c m s }

abbrev start : Sdk → Progress
start s = record { done = []; sdk = s }

try_usable :
    (m : Message) (o : Option ℕ) (s : Sdk)
    → is_usable s o ≡ true
    → try_connection m o (start s) ≡ (true, delivered m o s)
unfolding try_connection
try_usable m none s h = cc
try_usable m (some c) s h = ground arith

try_unusable :
    (m : Message) (o : Option ℕ) (s : Sdk)
    → is_usable s o ≡ false
    → try_connection m o (start s) ≡ (false, start s)
unfolding try_connection
try_unusable m none s h = refl
try_unusable m (some c) s h = ground arith

try_connection_lem :
    (m : Message) (o : Option ℕ) (s : Sdk)
    → (try_connection m o (start s)).1 ≡ delivered m (usable s o) s
try_connection_lem m o s = elim (Bool-cases (is_usable s o)) [
  | inl h ↦ rw (try_usable m o s h, h)
  | inr h ↦ rw (try_unusable m o s h, h)
]

any_of_pair_lem :
    (m : Message) (pair : Pair) (s : Sdk)
    → any_of_pair m pair (start s) ≡ delivered m (chosen any_side pair s) s
any_of_pair_lem m pair s = elim (Bool-cases (is_usable s pair.publisher_side)) [
  | inl h ↦ rw (try_usable m pair.publisher_side s h, h)
  | inr h ↦ rw (try_unusable m pair.publisher_side s h, h) (try_connection_lem m pair.viewer_side s)
]

send_to_pair_lem :
    (m : Message) (preference : Preference) (pair : Pair) (s : Sdk)
    → preference ≢ all_sides
    → send_to_pair m preference pair (start s) ≡ delivered m (chosen preference pair s) s
unfolding send_to_pair
send_to_pair_lem m only_publisher pair s ne = try_connection_lem m pair.publisher_side s
send_to_pair_lem m only_viewer pair s ne = try_connection_lem m pair.viewer_side s
send_to_pair_lem m any_side pair s ne = any_of_pair_lem m pair s
send_to_pair_lem m all_sides pair s ne = absurd (ne refl)
send_to_pair_lem m unset pair s ne = refl
send_to_pair_lem m unknown pair s ne = refl

-- What a call does once a direction is chosen, or none: without one the WebSocket is the way, if it
-- is allowed and open.
abbrev pub outcome : Message → String → Bool → Sdk → Option ℕ → Sent
outcome m uuid allow s (some c) = record { sent = true; fallbacks = []; sdk = send c m s }
outcome m uuid allow s none =
    if allow && can_fall_back s
    then record { sent = true; fallbacks = some uuid ∷ []; sdk = s }
    else record { sent = false; fallbacks = []; sdk = s }

with_fallback_lem :
    (m : Message) (uuid : String) (allow : Bool) (s : Sdk) (o : Option ℕ)
    → with_fallback (some uuid) allow (delivered m o s) ≡ outcome m uuid allow s o
with_fallback_lem m uuid allow s none = refl
with_fallback_lem m uuid allow s (some c) = refl

-- To a known peer that is named without a direction, one message goes to the channel that the
-- preference chooses; where that is none, over the WebSocket if this is allowed and open, and else
-- nothing is sent and the result is false. The preference for all sides is another theorem's.
pub send_data_internal_named :
    (m : Message) (uuid : String) (pair : Pair) (preference : Preference) (allow : Bool) (s : Sdk)
    → get uuid s.connections ≡ some pair
    → preference ≢ all_sides
    → send_data_internal m (some uuid) none preference allow s
      ≡ outcome m uuid allow s (chosen preference pair s)
unfolding send_data_internal over_channels
send_data_internal_named m uuid pair preference allow s e ne = rw e (
    rw (send_to_pair_lem m preference pair s ne)
      (with_fallback_lem m uuid allow s (chosen preference pair s)))
