-- ===== src/Run/Removed.antt =====
-- A connection that the table lost does not come back.
use ninja_vst3_plugin.Prelude.{
  ℕ, ◌≤◌, ◌<◌, String, Option, some, ◌≡◌, ◌≢◌, ◌⊎◌, inl, inr, refl, arith,
}
use ninja_vst3_plugin.Prelude.Table.{get}
use ninja_vst3_plugin.Peer.Types.{Kind, Sdk, PeerConnection, DataChannel}
use ninja_vst3_plugin.Peer.Create.{create_connection}
use ninja_vst3_plugin.Peer.Registry.{
  listed, IsFiled, Ends, Leaves, Empties, Evolves, calm, ends, leaves, empties, begins, after,
}
use ninja_vst3_plugin.Peer.Registry.Tables.{listed-without_side, listed-put_side, listed-delete}
use ninja_vst3_plugin.Peer.Registry.Kept.{Evolves-IsFiled}
use ninja_vst3_plugin.Run.{Step}
use ninja_vst3_plugin.Run.Registered.{Step-Evolves}

-- A run from one state to another.
pub data Steps (s : Sdk) : Sdk → Type 0 where
  stay : Steps s s
  onward : {t u : Sdk} → Steps s t → Step t u → Steps s u

-- What the later table lists, the earlier one listed, or it is newer.
pub record Follows (s t : Sdk) : Type 0 where
  pub grows : s.next_object ≤ t.next_object
  pub known :
      (uuid : String) (kind : Kind) (c : ℕ)
      → listed uuid kind t.connections ≡ some c
      → (listed uuid kind s.connections ≡ some c) ⊎ (s.next_object ≤ c)

Follows-trans : {s t u : Sdk} → Follows s t → Follows t u → Follows s u
Follows-trans {s} {t} {u} a b = record {
  grows = omega (arith, a.grows, b.grows);
  known = λ uuid kind c here. elim (b.known uuid kind c here) [
    | inl before ↦ a.known uuid kind c before
    | inr newer ↦ inr (omega (arith, a.grows, newer))
  ];
}

same_table-Follows :
    {s t : Sdk} → t.connections ≡ s.connections → t.next_object ≡ s.next_object → Follows s t
same_table-Follows table next = record {
  grows = omega (arith, next);
  known = λ uuid kind c here. inl (rw (← table) here);
}

Ends-Follows : (c : ℕ) (s t : Sdk) → Ends c s t → Follows s t
Ends-Follows c s t over = record {
  grows = omega (arith, over.next);
  known = λ peer other d here.
      let (before, _) =
        listed-without_side (s.objects c).uuid peer (s.objects c).kind other s.connections d
          (rw (← over.connections) here) in
      inl before;
}

Leaves-Follows : (uuid : String) (s t : Sdk) → Leaves uuid s t → Follows s t
Leaves-Follows uuid s t gone = record {
  grows = omega (arith, gone.next);
  known = λ peer other d here.
      let (_, before) =
        listed-delete uuid peer other s.connections d (rw (← gone.connections) here) in
      inl before;
}

Empties-Follows : (s t : Sdk) → Empties s t → Follows s t
unfolding get
Empties-Follows s t gone = record {
  grows = omega (arith, gone.next);
  known = λ peer other d here. ground (arith, gone.connections);
}

create_connection-Follows :
    (uuid : String) (kind : Kind) (pc : PeerConnection) (channel : DataChannel)
    (stream_id : Option String) (s : Sdk)
    → Follows s (create_connection uuid kind pc channel stream_id s)
unfolding create_connection
create_connection-Follows uuid kind pc channel stream_id s = record {
  grows = ground arith;
  known = λ peer other d here.
      elim (listed-put_side uuid peer kind other s.connections s.next_object d here) [
        | inl (_, _, new) ↦ inr (omega (arith, new))
        | inr before ↦ inl before
      ];
}

pub Evolves-Follows : {s t : Sdk} → Evolves s t → Follows s t
Evolves-Follows (calm quiet) = same_table-Follows quiet.connections quiet.next
Evolves-Follows (ends c over) = Ends-Follows c _ _ over
Evolves-Follows (leaves uuid gone) = Leaves-Follows uuid _ _ gone
Evolves-Follows (empties gone) = Empties-Follows _ _ gone
Evolves-Follows (begins uuid kind pc channel stream_id s) =
    create_connection-Follows uuid kind pc channel stream_id s
Evolves-Follows (after first then_next) =
    Follows-trans (Evolves-Follows first) (Evolves-Follows then_next)

Steps-Follows : {s t : Sdk} → IsFiled s → Steps s t → IsFiled t × Follows s t
Steps-Follows {s} filed stay = (filed, same_table-Follows refl refl)
Steps-Follows filed (onward run step) =
    let (filed_then, so_far) = Steps-Follows filed run in
    let one = Step-Evolves filed_then step in
    (Evolves-IsFiled one filed_then, Follows-trans so_far (Evolves-Follows one))

-- From a state whose entries stand in their places, an object that exists and is not listed for a
-- peer and a direction is not listed there after any further run: what the table lost, or never had,
-- does not come back under an old object.
pub Steps-removed :
    (s t : Sdk) (uuid : String) (kind : Kind) (c : ℕ)
    → IsFiled s
    → c < s.next_object
    → listed uuid kind s.connections ≢ some c
    → Steps s t
    → listed uuid kind t.connections ≢ some c
Steps-removed s t uuid kind c filed exists absent run here =
    let (_, follow) = Steps-Follows filed run in
    elim (follow.known uuid kind c here) [
      | inl before ↦ absent before
      | inr newer ↦ omega (arith, exists, newer)
    ]
