-- ===== src/Presence/Stops.antt =====
-- What is left of the viewers' connections when publishing stops.
use mathlib.Core.Path.{subst}
use ninja_vst3_plugin.Prelude.{
  ℕ, String, false, Option, none, some, Option-cases, List, [], ◌∷◌, ◌≡◌, ◌≢◌, refl, ◌∙◌, arith,
  eq_iff, inl, inr,
}
use ninja_vst3_plugin.Prelude.Table.{Table, get}
use ninja_vst3_plugin.Peer.Types.{viewer, publisher, Pair, Sdk}
use ninja_vst3_plugin.Peer.State.{without_side}
use ninja_vst3_plugin.Peer.Recovery.{finalize}
use ninja_vst3_plugin.Peer.Registry.{
  listed, IsRegistered, IsFiled, IsFiledTable, IsPlaced, SamePlace, IsCalm-refl, Ends, Evolves,
  calm, ends, after,
}
use ninja_vst3_plugin.Peer.Registry.Tables.{
  viewer-without_publisher, IsFiledTable-frame, listed-without_side,
}
use ninja_vst3_plugin.Peer.Registry.Kept.{Evolves-IsRegistered}
use ninja_vst3_plugin.Presence.State.{Presence}
use ninja_vst3_plugin.Presence.{is_publishing}
use ninja_vst3_plugin.Presence.Stopping.{stop_side, stop_each, stop_publishing_flushed}

stop_side-Ends :
    (uuid : String) (c : ℕ) (s : Sdk)
    → (s.objects c).uuid ≡ uuid
    → (s.objects c).kind ≡ publisher
    → Ends c s (stop_side uuid (some c) s)
unfolding finalize
stop_side-Ends uuid c s peer direction = record {
  connections = ground arith;
  next = refl;
  itself = ground arith;
  others = λ d ne. (ground arith);
}

abbrev SamePlaces : Sdk → Sdk → Type 0
SamePlaces s t = (t.next_object ≡ s.next_object) × ((d : ℕ) → SamePlace (s.objects d) (t.objects d))

stop_side-SamePlaces : (uuid : String) (o : Option ℕ) (s : Sdk) → SamePlaces s (stop_side uuid o s)
unfolding finalize
stop_side-SamePlaces uuid none s = (refl, λ d. (refl, refl))
stop_side-SamePlaces uuid (some c) s = (refl, λ d. (ground arith))

stop_side-Evolves :
    (uuid : String) (o : Option ℕ) (s : Sdk)
    → IsPlaced s.objects s.next_object uuid publisher o
    → Evolves s (stop_side uuid o s)
stop_side-Evolves uuid none s placed = calm (IsCalm-refl s)
stop_side-Evolves uuid (some c) s (exists, peer, direction) =
    ends c (stop_side-Ends uuid c s peer direction)

pub stop_each-Evolves :
    (entries : Table Pair) (s : Sdk)
    → IsFiledTable s.objects s.next_object entries
    → Evolves s (stop_each entries s)
unfolding stop_each
stop_each-Evolves [] s filed = calm (IsCalm-refl s)
stop_each-Evolves ((uuid, pair) ∷ rest) s ((v, p), filed) =
    let t = stop_side uuid pair.publisher_side s in
    let (next, same) = stop_side-SamePlaces uuid pair.publisher_side s in
    after (stop_side-Evolves uuid pair.publisher_side s p) (
      stop_each-Evolves rest t (
        IsFiledTable-frame s.objects t.objects s.next_object t.next_object rest (λ d _. same d)
          (omega (arith, next)) filed))

-- The publisher directions that a table lists are in the entries.
abbrev IsCovered : Table Pair → Table Pair → Type 0
IsCovered entries m =
    (peer : String) (c : ℕ)
    → listed peer publisher m ≡ some c
    → listed peer publisher entries ≡ some c

head_apart :
    (uuid peer : String) (pair : Pair) (rest : Table Pair) (c : ℕ)
    → uuid ≢ peer
    → listed peer publisher ((uuid, pair) ∷ rest) ≡ some c
    → listed peer publisher rest ≡ some c
unfolding get
head_apart uuid peer pair rest c ne here = ground (arith, eq_iff uuid peer, ne, here)

head_without :
    (uuid peer : String) (pair : Pair) (rest : Table Pair) (c : ℕ)
    → pair.publisher_side ≡ none
    → listed peer publisher ((uuid, pair) ∷ rest) ≡ some c
    → listed peer publisher rest ≡ some c
unfolding get
head_without uuid peer pair rest c lacks here = ground (arith, eq_iff uuid peer, lacks, here)

stop_side-IsCovered :
    (uuid : String) (pair : Pair) (rest : Table Pair) (s : Sdk)
    → IsCovered ((uuid, pair) ∷ rest) s.connections
    → IsCovered rest (stop_side uuid pair.publisher_side s).connections
unfolding finalize
stop_side-IsCovered uuid pair rest s covered peer c here = elim (Option-cases pair.publisher_side) [
  | inl lacks ↦ head_without uuid peer pair rest c lacks (
      covered peer c
        (subst (λ o. listed peer publisher (stop_side uuid o s).connections ≡ some c) lacks here))
  | inr (d, side_there) ↦
      let there : listed peer publisher (without_side uuid publisher s.connections) ≡ some c =
        subst (λ o. listed peer publisher (stop_side uuid o s).connections ≡ some c) side_there
          here in
      let (before, apart) =
        listed-without_side uuid peer publisher publisher s.connections c there in
      head_apart uuid peer pair rest c (elim apart [ inl ne ↦ ne | inr ne ↦ absurd (ne refl) ])
        (covered peer c before)
]

unlisted : (peer : String) (m : Table Pair) → IsCovered [] m → listed peer publisher m ≡ none
unfolding get
unlisted peer m covered = elim (Option-cases (listed peer publisher m)) [
  | inl e ↦ e
  | inr (c, e) ↦ absurd (ground (arith, covered peer c e))
]

stop_each-unlisted :
    (entries : Table Pair) (s : Sdk) (peer : String)
    → IsCovered entries s.connections
    → listed peer publisher (stop_each entries s).connections ≡ none
unfolding stop_each
stop_each-unlisted [] s peer covered = unlisted peer s.connections covered
stop_each-unlisted ((uuid, pair) ∷ rest) s peer covered =
    stop_each-unlisted rest (stop_side uuid pair.publisher_side s) peer
      (stop_side-IsCovered uuid pair rest s covered)

stop_side-viewer :
    (uuid peer : String) (o : Option ℕ) (s : Sdk)
    → listed peer viewer (stop_side uuid o s).connections ≡ listed peer viewer s.connections
unfolding finalize
stop_side-viewer uuid peer none s = refl
stop_side-viewer uuid peer (some c) s = viewer-without_publisher uuid peer s.connections

stop_each-viewer :
    (entries : Table Pair) (s : Sdk) (peer : String)
    → listed peer viewer (stop_each entries s).connections ≡ listed peer viewer s.connections
unfolding stop_each
stop_each-viewer [] s peer = refl
stop_each-viewer ((uuid, pair) ∷ rest) s peer =
    stop_each-viewer rest (stop_side uuid pair.publisher_side s) peer
    ∙ stop_side-viewer uuid peer pair.publisher_side s

-- Once the byes of a `stopPublishing` are flushed, no peer has a publisher direction, each has the
-- viewer direction that it had, nothing is published under any stream ID, and no local stream is kept.
pub stop_publishing_flushed-listed :
    (local_tracks : List ℕ) (s : Presence) (peer : String)
    → (listed peer publisher (stop_publishing_flushed local_tracks s).sdk.connections ≡ none)
      × (listed peer viewer (stop_publishing_flushed local_tracks s).sdk.connections
          ≡ listed peer viewer s.sdk.connections)
      × (is_publishing (stop_publishing_flushed local_tracks s) ≡ false)
      × ((stop_publishing_flushed local_tracks s).stream_id ≡ none)
      × ((stop_publishing_flushed local_tracks s).local_stream ≡ none)
unfolding stop_publishing_flushed
stop_publishing_flushed-listed local_tracks s peer = (
  stop_each-unlisted s.sdk.connections s.sdk peer (λ p c here. here),
  stop_each-viewer s.sdk.connections s.sdk peer,
  refl,
  refl,
  refl,
)

-- Where the listed connections are unfinalized objects in their own places, they still are once a
-- `stopPublishing` is flushed.
pub stop_publishing_flushed-IsRegistered :
    (local_tracks : List ℕ) (s : Presence)
    → IsFiled s.sdk
    → IsRegistered s.sdk
    → IsRegistered (stop_publishing_flushed local_tracks s).sdk
unfolding stop_publishing_flushed
stop_publishing_flushed-IsRegistered local_tracks s filed reg =
    Evolves-IsRegistered (stop_each-Evolves s.sdk.connections s.sdk filed) reg
