-- ===== src/Peer/Registry.antt =====
-- `this.connections` as a whole: which objects it lists, and what an operation may change of that.
pub mod Calm
pub mod Tables
pub mod Kept
pub mod Operations
pub mod Endings
use ninja_vst3_plugin.Prelude.{
  ℕ, ◌+◌, ◌<◌, ◌≡◌, refl, ◌∙◌, String, Bool, true, false, Option, none, some, List, [], ◌∷◌, ◌≢◌,
}
use ninja_vst3_plugin.Prelude.Table.{Table, get, delete}
use ninja_vst3_plugin.Peer.Types.{
  Kind, viewer, publisher, Connection, Pair, PeerConnection, DataChannel, Sdk,
}
use ninja_vst3_plugin.Peer.State.{side, without_side}
use ninja_vst3_plugin.Peer.Create.{create_connection}

-- connections.get(uuid)?.[type]
abbrev pub listed : String → Kind → Table Pair → Option ℕ
listed uuid kind connections = elim (get uuid connections) [
  | none ↦ none
  | some pair ↦ side kind pair
]

-- What a listed object is: one that exists, in its own place, and not finalized.
pub record Belongs (uuid : String) (kind : Kind) (next_object c : ℕ) (conn : Connection)
    : Type 0 where
  pub exists : c < next_object
  pub peer : conn.uuid ≡ uuid
  pub direction : conn.kind ≡ kind
  pub alive : conn.finalized ≡ false

abbrev pub IsRegistered : Sdk → Type 0
IsRegistered s =
    (uuid : String) (kind : Kind) (c : ℕ)
    → listed uuid kind s.connections ≡ some c
    → Belongs uuid kind s.next_object c (s.objects c)

-- Where an object stands never changes.
abbrev pub SamePlace : Connection → Connection → Type 0
SamePlace before after = (after.uuid ≡ before.uuid) × (after.kind ≡ before.kind)

-- An entry's side is an object that exists and whose place is there.
abbrev pub IsPlaced : (ℕ → Connection) → ℕ → String → Kind → Option ℕ → Type 0
IsPlaced objects next uuid kind none = Unit {0}
IsPlaced objects next uuid kind (some c) =
    (c < next) × ((objects c).uuid ≡ uuid) × ((objects c).kind ≡ kind)

abbrev pub IsPlacedPair : (ℕ → Connection) → ℕ → String → Pair → Type 0
IsPlacedPair objects next uuid pair =
    IsPlaced objects next uuid viewer pair.viewer_side
    × IsPlaced objects next uuid publisher pair.publisher_side

abbrev pub IsFiledTable : (ℕ → Connection) → ℕ → Table Pair → Type 0
IsFiledTable objects next [] = Unit {0}
IsFiledTable objects next ((uuid, pair) ∷ m) =
    IsPlacedPair objects next uuid pair × IsFiledTable objects next m

abbrev pub IsFiled : Sdk → Type 0
IsFiled s = IsFiledTable s.objects s.next_object s.connections

-- What stays of an object when its other fields change.
abbrev pub SameObject : Connection → Connection → Type 0
SameObject before after =
    (after.uuid ≡ before.uuid) × (after.kind ≡ before.kind) × (after.finalized ≡ before.finalized)

-- The table and the objects' identities stay.
pub record IsCalm (s t : Sdk) : Type 0 where
  pub connections : t.connections ≡ s.connections
  pub next : t.next_object ≡ s.next_object
  pub objects : (d : ℕ) → SameObject (s.objects d) (t.objects d)

pub IsCalm-refl : (s : Sdk) → IsCalm s s
IsCalm-refl s = record { connections = refl; next = refl; objects = λ d. (refl, refl, refl) }

pub IsCalm-trans : {s t u : Sdk} → IsCalm s t → IsCalm t u → IsCalm s u
IsCalm-trans a b = record {
  connections = b.connections ∙ a.connections;
  next = b.next ∙ a.next;
  objects = λ d. (
    (b.objects d).0 ∙ (a.objects d).0,
    (b.objects d).1 ∙ (a.objects d).1,
    (b.objects d).2 ∙ (a.objects d).2,
  );
}

-- One direction ends: it is not listed any more, and only its own object changes.
pub record Ends (c : ℕ) (s t : Sdk) : Type 0 where
  pub connections : t.connections ≡ without_side (s.objects c).uuid (s.objects c).kind s.connections
  pub next : t.next_object ≡ s.next_object
  pub itself : SamePlace (s.objects c) (t.objects c)
  pub others : (d : ℕ) → c ≢ d → SameObject (s.objects d) (t.objects d)

-- A peer leaves with its directions, whose objects alone change.
pub record Leaves (uuid : String) (s t : Sdk) : Type 0 where
  pub connections : t.connections ≡ delete uuid s.connections
  pub next : t.next_object ≡ s.next_object
  pub places : (d : ℕ) → SamePlace (s.objects d) (t.objects d)
  pub others :
      (d : ℕ)
      → listed uuid viewer s.connections ≢ some d
      → listed uuid publisher s.connections ≢ some d
      → SameObject (s.objects d) (t.objects d)

-- All connections go at once.
pub record Empties (s t : Sdk) : Type 0 where
  pub connections : t.connections ≡ []
  pub next : t.next_object ≡ s.next_object
  pub places : (d : ℕ) → SamePlace (s.objects d) (t.objects d)

-- What may happen to the table: nothing, the end of a direction, the leaving of a peer, the end of
-- all, a new connection, or several of these in turn.
pub data Evolves : Sdk → Sdk → Type 0 where
  calm : {s t : Sdk} → IsCalm s t → Evolves s t
  ends : {s t : Sdk} (c : ℕ) → Ends c s t → Evolves s t
  leaves : {s t : Sdk} (uuid : String) → Leaves uuid s t → Evolves s t
  empties : {s t : Sdk} → Empties s t → Evolves s t
  begins :
      (uuid : String) (kind : Kind) (pc : PeerConnection) (channel : DataChannel)
      (stream_id : Option String) (s : Sdk)
      → Evolves s (create_connection uuid kind pc channel stream_id s)
  after : {s t u : Sdk} → Evolves s t → Evolves t u → Evolves s u
