-- ===== src/Names/Suffix.antt =====
-- The hash at the end of a stream ID.
use ninja_vst3_plugin.Prelude.{
  ℕ, zero, suc, ◌+◌, ◌-◌, ◌<◌, String, false, some, ◌≡◌, refl, ap, arith, eq_iff, ◌⊎◌,
}
use ninja_vst3_plugin.Names.{is_empty, length, take, drop, append, strip_hash}

length-append : (s t : String) → length (append s t) ≡ length s + length t
unfolding append
length-append String.[] t = omega arith
length-append (String.◌∷◌ c s) t = omega (arith, length-append s t)

take-append : (s t : String) → take (length s) (append s t) ≡ s
unfolding append take
take-append String.[] t = refl
take-append (String.◌∷◌ c s) t = ap (String.◌∷◌ c) (take-append s t)

drop-append : (s t : String) → drop (length s) (append s t) ≡ t
unfolding append drop
drop-append String.[] t = refl
drop-append (String.◌∷◌ c s) t = drop-append s t

append-take-drop : (n : ℕ) (s : String) → append (take n s) (drop n s) ≡ s
unfolding append take drop
append-take-drop zero s = refl
append-take-drop (suc n) String.[] = refl
append-take-drop (suc n) (String.◌∷◌ c s) = ap (String.◌∷◌ c) (append-take-drop n s)

length_full : (s : String) → is_empty s ≡ false → 0 < length s
length_full String.[] full = absurd (ground arith)
length_full (String.◌∷◌ c s) full = omega arith

-- A stream ID and a hash that are not empty: the stream ID with the hash appended, as it is sent to
-- other peers, is stripped to the stream ID.
pub strip_hash-append :
    (stream_id hash : String)
    → is_empty stream_id ≡ false
    → is_empty hash ≡ false
    → strip_hash (some hash) (append stream_id hash) ≡ stream_id
unfolding strip_hash
strip_hash-append stream_id hash full hashed =
    let kept : length (append stream_id hash) - length hash ≡ length stream_id =
      omega (arith, length-append stream_id hash) in
    ground (
      arith,
      length-append stream_id hash,
      length_full stream_id full,
      length_full hash hashed,
      kept,
      take-append stream_id hash,
      drop-append stream_id hash,
      eq_iff hash hash,
    )

-- What is stripped is the hash at the end, or nothing.
pub strip_hash_cases :
    (hash stream_id : String)
    → (strip_hash (some hash) stream_id ≡ stream_id)
      ⊎ (append (strip_hash (some hash) stream_id) hash ≡ stream_id)
unfolding strip_hash
strip_hash_cases hash stream_id =
    let kept = length stream_id - length hash in
    ground (arith, eq_iff (drop kept stream_id) hash, append-take-drop kept stream_id)
