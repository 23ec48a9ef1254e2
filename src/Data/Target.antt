-- ===== src/Data/Target.antt =====
-- `sendData`: the target given by the application, with its aliases, and the calls that follow.
pub mod Routes
use ninja_vst3_plugin.Prelude.{
  ℕ, String, Bool, true, false, not, ◌&&◌, ◌||◌, Option, none, some, List, [], ◌∷◌, ◌++◌,
  if◌then◌else◌,
}
use ninja_vst3_plugin.Peer.Types.{Kind, Message, Pair, Sdk}
use ninja_vst3_plugin.Peer.Lookup.{get_connections}
use ninja_vst3_plugin.Data.Send.{
  Preference, only_publisher, only_viewer, any_side, all_sides, unset, unknown, Sent,
  send_data_internal, group,
}

-- The texts that mean something as `type`, `preference`, `channel` or `prefer`; `pcs` and `rpcs`
-- are the web client's names.
pub data Route : Type 0 where
  viewer publisher pcs rpcs any all other : Route

-- The properties that the target object has; `none` is one that it lacks or that is falsy, so an
-- empty preference is not told from none.
pub record TargetOptions : Type 0 where
  pub uuid : Option String
  pub upper_uuid : Option String
  pub type : Option Route
  pub stream_id : Option String
  pub preference : Option Route
  pub channel : Option Route
  pub prefer : Option Route
  pub allow_fallback : Option Bool

abbrev pub or_else {ℓ} : {A : Type ℓ} → Option A → Option A → Option A
or_else none b = b
or_else (some a) b = some a

abbrev pub is_some {ℓ} : {A : Type ℓ} → Option A → Bool
is_some none = false
is_some (some a) = true

-- 'pcs' and 'rpcs' by their new names.
abbrev pub rename : Option Route → Option Route
rename none = none
rename (some pcs) = some Route.publisher
rename (some rpcs) = some Route.viewer
rename (some other_route) = some other_route

abbrev pub is_route_word : Option Route → Bool
is_route_word (some any) = true
is_route_word (some all) = true
is_route_word _ = false

-- The statements that normalize the copy of the target.
unfoldable pub normalize : TargetOptions → TargetOptions
normalize t =
    let uuid = or_else t.uuid t.upper_uuid in
    let preference = or_else (or_else t.preference t.channel) t.prefer in
    let type = rename t.type in
    let misplaced = is_route_word type && not (is_some uuid) && not (is_some t.stream_id) in
    record t {
      uuid = uuid;
      type = if misplaced then none else type;
      preference = rename (if misplaced then or_else preference type else preference);
    }

abbrev pub to_preference : Route → Preference
to_preference Route.viewer = only_viewer
to_preference Route.publisher = only_publisher
to_preference any = any_side
to_preference all = all_sides
to_preference _ = unknown

abbrev pub preference_of : Option Route → Preference
preference_of none = any_side
preference_of (some route) = to_preference route

-- The types that `_getConnections` and `_sendDataInternal` know; another one matches no connection.
abbrev pub kind_of : Route → Option Kind
kind_of Route.viewer = some Kind.viewer
kind_of Route.publisher = some Kind.publisher
kind_of _ = none

abbrev pub kind_of_type : Option Route → Option Kind
kind_of_type none = none
kind_of_type (some route) = kind_of route

-- The connections of a stream, for the type as given: a type that is unknown matches none.
unfoldable pub of_stream : String → Option Route → Sdk → List ℕ
of_stream stream_id none s = get_connections none none (some stream_id) s
of_stream stream_id (some route) s = elim (kind_of route) [
  | none ↦ []
  | some kind ↦ get_connections none (some kind) (some stream_id) s
]

unfoldable pub send_to_peers : Message → Preference → Bool → List (String × Pair) → Sent → Sent
send_to_peers m preference allow [] r = r
send_to_peers m preference allow ((uuid, pair) ∷ rest) r =
    let one = send_data_internal m (some uuid) none preference allow r.sdk in
    send_to_peers m preference allow rest (record {
      sent = r.sent || one.sent;
      fallbacks = r.fallbacks ++ one.fallbacks;
      sdk = one.sdk;
    })

-- Each peer of the stream is sent to, by its UUID alone.
unfoldable pub send_to_stream : Message → String → Option Route → Preference → Bool → Sdk → Sent
send_to_stream m stream_id type preference allow s =
    send_to_peers m preference allow (group (of_stream stream_id type s) s [])
      (record { sent = false; fallbacks = []; sdk = s })

abbrev pub allowed : Option Bool → Bool
allowed none = false
allowed (some b) = b

-- The branches for an object, after it is normalized.
unfoldable pub send_to_target : Message → TargetOptions → Sdk → Sent
send_to_target m t s =
    let preference = preference_of t.preference in
    let allow = allowed t.allow_fallback in
    elim t.uuid [
      | some uuid ↦
          if is_some t.type || is_some t.stream_id
          then send_data_internal m (some uuid) (kind_of_type t.type) preference allow s
          else send_data_internal m (some uuid) none preference allow s
      | none ↦ elim t.stream_id [
        | some stream_id ↦ send_to_stream m stream_id t.type preference allow s
        | none ↦
            if is_some t.type
            then send_data_internal m none (kind_of_type t.type) preference allow s
            else send_data_internal m none none preference allow s
      ]
    ]

-- A target is null, a UUID or an object; an empty UUID counts as none.
pub data Target : Type 0 where
  everyone : Target
  peer : String → Target
  chosen : TargetOptions → Target

-- `sendData`, less its warnings.
unfoldable pub send_data : Message → Target → Sdk → Sent
send_data m everyone s = send_data_internal m none none any_side false s
send_data m (peer uuid) s = send_data_internal m (some uuid) none any_side false s
send_data m (chosen t) s = send_to_target m (normalize t) s
