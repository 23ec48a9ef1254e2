-- ===== src/Data/Send.antt =====
-- `_sendDataInternal`: which data channels a message goes to, and the fallback to the WebSocket.
pub mod Delivery
pub mod Once
use ninja_vst3_plugin.Prelude.{
  ℕ, String, Bool, true, false, not, ◌&&◌, Option, none, some, List, [], ◌∷◌, any, ◌==◌,
  if◌then◌else◌,
}
use ninja_vst3_plugin.Prelude.Table.{get, set}
use ninja_vst3_plugin.Peer.Types.{Kind, viewer, publisher, Message, Pair, Sdk}
use ninja_vst3_plugin.Peer.State.{put_side, send, has_open_channel, channel_sends}
use ninja_vst3_plugin.Peer.Lookup.{get_connections}
use ninja_vst3_plugin.Peer.Create.{pair_of}

-- `unset` is a preference that is null or the empty text, `unknown` any other value.
pub data Preference : Type 0 where
  only_publisher only_viewer any_side all_sides unset unknown : Preference

-- `sentConnections` and the state; `sent` is true once the set is not empty.
pub record Progress : Type 0 where
  pub done : List ℕ
  pub sdk : Sdk

abbrev pub is_done : ℕ → Progress → Bool
is_done c p = any (λ d. d == c) p.done

-- tryConnection
unfoldable pub try_connection : Message → Option ℕ → Progress → Bool × Progress
try_connection m none p = (false, p)
try_connection m (some c) p =
    if has_open_channel (p.sdk.objects c) && not (is_done c p) && channel_sends (p.sdk.objects c)
    then (true, record { done = c ∷ p.done; sdk = send c m p.sdk })
    else (false, p)

abbrev pub else_try : Message → Option ℕ → Bool × Progress → Progress
else_try m o (true, p) = p
else_try m o (false, p) = (try_connection m o p).1

abbrev pub any_of_pair : Message → Pair → Progress → Progress
any_of_pair m pair p = else_try m pair.viewer_side (try_connection m pair.publisher_side p)

-- The branches for one peer that is named.
unfoldable pub send_to_pair : Message → Preference → Pair → Progress → Progress
send_to_pair m only_publisher pair p = (try_connection m pair.publisher_side p).1
send_to_pair m only_viewer pair p = (try_connection m pair.viewer_side p).1
send_to_pair m any_side pair p = any_of_pair m pair p
send_to_pair m all_sides pair p =
    (try_connection m pair.viewer_side (try_connection m pair.publisher_side p).1).1
send_to_pair m unset pair p = p
send_to_pair m unknown pair p = p

-- The same for one of several peers: there a preference that is not set is any side, and `all_sides`
-- does not come here.
unfoldable pub send_to_group : Message → Preference → Pair → Progress → Progress
send_to_group m only_publisher pair p = (try_connection m pair.publisher_side p).1
send_to_group m only_viewer pair p = (try_connection m pair.viewer_side p).1
send_to_group m any_side pair p = any_of_pair m pair p
send_to_group m unset pair p = any_of_pair m pair p
send_to_group m all_sides pair p = p
send_to_group m unknown pair p = p

-- connectionsByUuid
unfoldable pub group : List ℕ → Sdk → List (String × Pair) → List (String × Pair)
group [] s groups = groups
group (c ∷ cs) s groups =
    let uuid = (s.objects c).uuid in
    group cs s (set uuid (put_side (s.objects c).kind c (pair_of (get uuid groups))) groups)

unfoldable pub send_to_groups : Message → Preference → List (String × Pair) → Progress → Progress
send_to_groups m preference [] p = p
send_to_groups m preference ((uuid, pair) ∷ rest) p =
    send_to_groups m preference rest (send_to_group m preference pair p)

unfoldable pub send_to_each : Message → List ℕ → Progress → Progress
send_to_each m [] p = p
send_to_each m (c ∷ cs) p = send_to_each m cs (try_connection m (some c) p).1

abbrev pub send_filtered : Message → Preference → List ℕ → Progress → Progress
send_filtered m all_sides cs p = send_to_each m cs p
send_filtered m preference cs p = send_to_groups m preference (group cs p.sdk []) p

abbrev pub send_named : Message → Preference → Option Pair → Progress → Progress
send_named m preference none p = p
send_named m preference (some pair) p = send_to_pair m preference pair p

-- A peer that is named, with no direction; otherwise the connections that pass the filters.
unfoldable pub over_channels :
    Message → Option String → Option Kind → Preference → Progress → Progress
over_channels m (some uuid) none preference p =
    send_named m preference (get uuid p.sdk.connections) p
over_channels m uuid type preference p =
    send_filtered m preference (get_connections uuid type none p.sdk) p

-- `fallbacks` are the peers that messages over the WebSocket name; `none` is a broadcast.
pub record Sent : Type 0 where
  pub sent : Bool
  pub fallbacks : List (Option String)
  pub sdk : Sdk

abbrev pub is_sent : Progress → Bool
is_sent p = elim p.done [ [] ↦ false | _ ∷ _ ↦ true ]

abbrev pub is_open : Option Bool → Bool
is_open none = false
is_open (some open_now) = open_now

-- this.state.connected && this.signaling && this.signaling.readyState === WebSocket.OPEN
abbrev pub can_fall_back : Sdk → Bool
can_fall_back s = s.is_connected && is_open s.signaling

abbrev pub with_fallback : Option String → Bool → Progress → Sent
with_fallback uuid allow_fallback p =
    if is_sent p
    then record { sent = true; fallbacks = []; sdk = p.sdk }
    else if allow_fallback && can_fall_back p.sdk
    then record { sent = true; fallbacks = uuid ∷ []; sdk = p.sdk }
    else record { sent = false; fallbacks = []; sdk = p.sdk }

unfoldable pub send_data_internal :
    Message → Option String → Option Kind → Preference → Bool → Sdk → Sent
send_data_internal m uuid type preference allow_fallback s =
    with_fallback uuid allow_fallback
      (over_channels m uuid type preference (record { done = []; sdk = s }))
