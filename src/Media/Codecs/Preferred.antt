-- ===== src/Media/Codecs/Preferred.antt =====
-- What the preference list holds, and in which order.
use mathlib.Core.List.{Perm, ◌++◌, perm_middle}
use mathlib.Core.List.Perm
use ninja_vst3_plugin.Prelude.{
  String, Bool, true, false, not, ◌||◌, some, List, [], ◌∷◌, filter, ◌≡◌, arith,
}
use ninja_vst3_plugin.Media.Codecs.{
  Codec, Class, primary, associated, fallback, classify, is_primary, is_associated, is_fallback,
  primaries, associates, fallbacks, belongs, build_codec_preference_list, when_any,
}

-- Not a retransmission codec, or one that belongs to a codec of the list.
abbrev pub is_kept : (Codec → Bool) → String → Codec → Bool
is_kept own target codec = not (is_associated (classify target codec)) || own codec

abbrev place : Bool → Codec → List Codec → List Codec
place b x l = elim b [ true ↦ x ∷ l | false ↦ l ]

place_lem :
    (own : Codec → Bool) (x : Codec) (c : Class) (p a f k : List Codec)
    → Perm (p ++ (filter own a ++ f)) k
    → Perm
        (place (is_primary c) x p
          ++ (filter own (place (is_associated c) x a) ++ place (is_fallback c) x f))
        (place (not (is_associated c) || own x) x k)
place_lem own x primary p a f k h = Perm.cons x h
place_lem own x associated p a f k h =
    elim (own x)
      as (λ b.
        Perm (p ++ (elim b [ true ↦ x ∷ filter own a | false ↦ filter own a ] ++ f))
          (place b x k)) [
            | true ↦ Perm.trans (perm_middle p (filter own a ++ f)) (Perm.cons x h)
            | false ↦ h
          ]
place_lem own x fallback p a f k h =
    Perm.trans (Perm.append_left p (perm_middle (filter own a) f))
      (Perm.trans (perm_middle p (filter own a ++ f)) (Perm.cons x h))

parts_lem :
    (own : Codec → Bool) (target : String) (codecs : List Codec)
    → Perm
        (primaries target codecs
          ++ (filter own (associates target codecs) ++ fallbacks target codecs))
        (filter (is_kept own target) codecs)
parts_lem own target [] = Perm.nil
parts_lem own target (codec ∷ codecs) =
    place_lem own codec (classify target codec) (primaries target codecs) (associates target codecs)
      (fallbacks target codecs) (filter (is_kept own target) codecs) (parts_lem own target codecs)

-- The codec has the requested name.
abbrev pub is_requested : String → Codec → Bool
is_requested target codec = is_primary (classify target codec)

-- The first codec of the list has the requested name.
abbrev pub starts_requested : String → List Codec → Bool
starts_requested target [] = false
starts_requested target (codec ∷ _) = is_requested target codec

when_any_lem :
    (target : String) (codecs rest result : List Codec)
    → when_any (primaries target codecs) (primaries target codecs ++ rest) ≡ some result
    → (result ≡ primaries target codecs ++ rest) × (starts_requested target result ≡ true)
when_any_lem target [] rest result h = ground arith
when_any_lem target (codec ∷ codecs) rest result h =
    ground (arith, when_any_lem target codecs rest result)

-- A preference list starts with a codec of the requested name, and is a rearrangement of the codecs
-- given less the retransmission codecs that belong to none of that name.
pub build_codec_preference_list_lem :
    (codecs result : List Codec) (target : String)
    → build_codec_preference_list codecs target ≡ some result
    → (starts_requested target result ≡ true)
      × Perm result (filter (is_kept (belongs (primaries target codecs)) target) codecs)
unfolding build_codec_preference_list
build_codec_preference_list_lem codecs result target h =
    let first = primaries target codecs in
    let (e, starts) =
      when_any_lem target codecs
        (filter (belongs first) (associates target codecs) ++ fallbacks target codecs) result
        (ground arith) in
    (starts, rw e (parts_lem (belongs first) target codecs))
