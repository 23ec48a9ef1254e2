-- ===== src/Peer/Lookup.antt =====
-- `_getConnection` and `_getConnections`: addresses by peer, direction and stream.
use ninja_vst3_plugin.Prelude.{
  ℕ, String, Bool, true, false, Option, none, some, List, [], ◌∷◌, ◌++◌, str_eq, if◌then◌else◌,
}
use ninja_vst3_plugin.Prelude.Table.{get}
use ninja_vst3_plugin.Peer.Types.{Kind, viewer, publisher, Pair, Sdk}
use ninja_vst3_plugin.Peer.State.{side}

abbrev pub or_else {ℓ} : {A : Type ℓ} → Option A → Option A → Option A
or_else none b = b
or_else (some a) b = some a

-- `none` for `type` takes any direction, a viewer first.
unfoldable pub get_connection : String → Option Kind → Sdk → Option ℕ
get_connection uuid type s = elim (get uuid s.connections) [
  | none ↦ none
  | some pair ↦ elim type [
    | some kind ↦ side kind pair
    | none ↦ or_else pair.viewer_side pair.publisher_side
  ]
]

abbrev pub same_kind : Kind → Kind → Bool
same_kind viewer viewer = true
same_kind publisher publisher = true
same_kind _ _ = false

-- A filter that is not given passes everything.
abbrev pub passes_kind : Option Kind → Kind → Bool
passes_kind none kind = true
passes_kind (some wanted) kind = same_kind kind wanted

abbrev pub passes_uuid : Option String → String → Bool
passes_uuid none uuid = true
passes_uuid (some wanted) uuid = str_eq uuid wanted

abbrev pub passes_stream : Option String → Option String → Bool
passes_stream none stream = true
passes_stream (some wanted) none = false
passes_stream (some wanted) (some stream) = str_eq stream wanted

-- The body of the inner loop, for one direction of one peer.
unfoldable pub matching_side : Sdk → Option Kind → Option String → Kind → Option ℕ → List ℕ
matching_side s type stream_id kind none = []
matching_side s type stream_id kind (some c) =
    if passes_kind type kind
    then if passes_stream stream_id (s.objects c).stream_id then c ∷ [] else []
    else []

unfoldable pub matching :
    Sdk → Option String → Option Kind → Option String → List (String × Pair) → List ℕ
matching s uuid type stream_id [] = []
matching s uuid type stream_id ((peer, pair) ∷ rest) =
    let found =
      matching_side s type stream_id viewer pair.viewer_side
      ++ matching_side s type stream_id publisher pair.publisher_side in
    let later = matching s uuid type stream_id rest in
    if passes_uuid uuid peer then found ++ later else later

-- `none` in a filter is a filter that is not given.
unfoldable pub get_connections : Option String → Option Kind → Option String → Sdk → List ℕ
get_connections uuid type stream_id s = matching s uuid type stream_id s.connections
