-- ===== src/Peer/Registry/Kept.antt =====
-- However the table evolves, what it lists stays right.
use mathlib.Core.Path.{subst}
use ninja_vst3_plugin.Prelude.{
  sym, ℕ, ◌≡◌, ◌≢◌, ◌∙◌, String, Option, some, Bool-cases, ◌⊎◌, inl, inr, [], arith, ◌==◌,
}
use ninja_vst3_plugin.Prelude.Table.{Table, get, delete}
use ninja_vst3_plugin.Peer.Types.{Sdk, Kind, viewer, publisher, Pair, DataChannel, PeerConnection}
use ninja_vst3_plugin.Peer.State.{without_side}
use ninja_vst3_plugin.Peer.Create.{create_connection}
use ninja_vst3_plugin.Peer.Registry.{
  Belongs, IsRegistered, IsFiledTable, IsFiled, SamePlace, IsCalm, Ends, Leaves, Empties, Evolves,
  calm, ends, leaves, empties, begins, after,
}
use ninja_vst3_plugin.Peer.Registry.Tables.{
  listed-without_side, listed-put_side, listed-delete, delete-IsFiledTable,
  without_side-IsFiledTable, put-IsFiledTable, IsFiledTable-frame,
}

pub IsCalm-IsRegistered : {s t : Sdk} → IsCalm s t → IsRegistered s → IsRegistered t
IsCalm-IsRegistered {s} {t} quiet reg uuid kind c here =
    let at = reg uuid kind c (rw (← quiet.connections) here) in
    let (same_uuid, same_kind, same_life) = quiet.objects c in
    record {
      exists = rw quiet.next at.exists;
      peer = same_uuid ∙ at.peer;
      direction = same_kind ∙ at.direction;
      alive = same_life ∙ at.alive;
    }

not_itself :
    (c d next : ℕ) (peer : String) (other : Kind) (s : Sdk)
    → Belongs peer other next d (s.objects d)
    → ((s.objects c).uuid ≢ peer) ⊎ ((s.objects c).kind ≢ other)
    → c ≢ d
not_itself c d next peer other s at (inl ne) e = ne (rw e at.peer)
not_itself c d next peer other s at (inr ne) e = ne (rw e at.direction)

pub Ends-IsRegistered : (c : ℕ) (s t : Sdk) → Ends c s t → IsRegistered s → IsRegistered t
Ends-IsRegistered c s t over reg peer other d here =
    let (before, apart) =
      listed-without_side (s.objects c).uuid peer (s.objects c).kind other s.connections d
        (rw (← over.connections) here) in
    let at = reg peer other d before in
    let (same_uuid, same_kind, same_life) =
      over.others d (not_itself c d s.next_object peer other s at apart) in
    record {
      exists = rw over.next at.exists;
      peer = same_uuid ∙ at.peer;
      direction = same_kind ∙ at.direction;
      alive = same_life ∙ at.alive;
    }

-- A new connection takes its place in the table.
create_connection-IsRegistered :
    (uuid : String) (kind : Kind) (pc : PeerConnection) (channel : DataChannel)
    (stream_id : Option String) (s : Sdk)
    → IsRegistered s
    → IsRegistered (create_connection uuid kind pc channel stream_id s)
unfolding create_connection
create_connection-IsRegistered uuid kind pc channel stream_id s reg peer other d here =
    elim (listed-put_side uuid peer kind other s.connections s.next_object d here) [
      | inl (same_uuid, same_kind, new) ↦ ground arith
      | inr before ↦ let at = reg peer other d before in ground arith
    ]

not_listed : (c d : Option ℕ) (e : ℕ) → c ≡ d → d ≢ some e → c ≢ some e
not_listed c d e same ne eq = ne (sym same ∙ eq)

Leaves-IsRegistered :
    (uuid : String) (s t : Sdk) → Leaves uuid s t → IsRegistered s → IsRegistered t
Leaves-IsRegistered uuid s t gone reg peer other d here =
    let (apart, before) =
      listed-delete uuid peer other s.connections d (rw (← gone.connections) here) in
    let at = reg peer other d before in
    let (same_uuid, same_kind, same_life) =
      gone.others d (λ e. apart (sym (reg uuid viewer d e).peer ∙ at.peer))
        (λ e. apart (sym (reg uuid publisher d e).peer ∙ at.peer)) in
    record {
      exists = rw gone.next at.exists;
      peer = same_uuid ∙ at.peer;
      direction = same_kind ∙ at.direction;
      alive = same_life ∙ at.alive;
    }

Empties-IsRegistered : (s t : Sdk) → Empties s t → IsRegistered t
unfolding get
Empties-IsRegistered s t gone peer other d here = ground (arith, gone.connections)

-- What is listed is always an unfinalized object in its own place.
pub Evolves-IsRegistered : {s t : Sdk} → Evolves s t → IsRegistered s → IsRegistered t
Evolves-IsRegistered (calm quiet) reg = IsCalm-IsRegistered quiet reg
Evolves-IsRegistered (ends c over) reg = Ends-IsRegistered c _ _ over reg
Evolves-IsRegistered (leaves uuid gone) reg = Leaves-IsRegistered uuid _ _ gone reg
Evolves-IsRegistered (empties gone) reg = Empties-IsRegistered _ _ gone
Evolves-IsRegistered (begins uuid kind pc channel stream_id s) reg =
    create_connection-IsRegistered uuid kind pc channel stream_id s reg
Evolves-IsRegistered (after first then_next) reg =
    Evolves-IsRegistered then_next (Evolves-IsRegistered first reg)

same_table-IsFiled :
    (s t : Sdk) (m : Table Pair)
    → t.connections ≡ m
    → t.next_object ≡ s.next_object
    → ((d : ℕ) → SamePlace (s.objects d) (t.objects d))
    → IsFiledTable s.objects s.next_object m
    → IsFiled t
same_table-IsFiled s t m table next same filed = rw table (
    IsFiledTable-frame s.objects t.objects s.next_object t.next_object m (λ d _. same d)
      (omega (arith, next)) filed)

Ends-places : (c : ℕ) (s t : Sdk) → Ends c s t → (d : ℕ) → SamePlace (s.objects d) (t.objects d)
Ends-places c s t over d = elim (Bool-cases (c == d)) [
  | inl e ↦
      let same : c ≡ d = ground arith in
      subst (λ i. SamePlace (s.objects i) (t.objects i)) same over.itself
  | inr ne ↦ let (u, k, _) = over.others d (ground arith) in (u, k)
]

create_connection-IsFiled :
    (uuid : String) (kind : Kind) (pc : PeerConnection) (channel : DataChannel)
    (stream_id : Option String) (s : Sdk)
    → IsFiled s
    → IsFiled (create_connection uuid kind pc channel stream_id s)
unfolding create_connection
create_connection-IsFiled uuid kind pc channel stream_id s filed =
    let t = create_connection uuid kind pc channel stream_id s in
    put-IsFiledTable t.objects t.next_object uuid kind s.next_object s.connections (ground arith) (
      IsFiledTable-frame s.objects t.objects s.next_object t.next_object s.connections
        (λ d less. (ground arith)) (omega arith) filed)

-- Each entry's sides always stand where their objects say.
pub Evolves-IsFiled : {s t : Sdk} → Evolves s t → IsFiled s → IsFiled t
Evolves-IsFiled {s} {t} (calm quiet) filed =
    same_table-IsFiled s t s.connections quiet.connections quiet.next
      (λ d. let (u, k, _) = quiet.objects d in (u, k)) filed
Evolves-IsFiled {s} {t} (ends c over) filed =
    same_table-IsFiled s t (without_side (s.objects c).uuid (s.objects c).kind s.connections)
      over.connections over.next (Ends-places c s t over)
      (without_side-IsFiledTable s.objects s.next_object (s.objects c).uuid (s.objects c).kind
        s.connections filed)
Evolves-IsFiled {s} {t} (leaves uuid gone) filed =
    same_table-IsFiled s t (delete uuid s.connections) gone.connections gone.next gone.places
      (delete-IsFiledTable s.objects s.next_object uuid s.connections filed)
Evolves-IsFiled {s} {t} (empties gone) filed =
    same_table-IsFiled s t [] gone.connections gone.next gone.places tt
Evolves-IsFiled (begins uuid kind pc channel stream_id s) filed =
    create_connection-IsFiled uuid kind pc channel stream_id s filed
Evolves-IsFiled (after first then_next) filed =
    Evolves-IsFiled then_next (Evolves-IsFiled first filed)
