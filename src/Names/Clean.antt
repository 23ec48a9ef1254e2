-- ===== src/Names/Clean.antt =====
-- What the sanitizers give.
use Prim.Native.Char.{code}
use ninja_vst3_plugin.Prelude.{
  ℕ, zero, suc, ◌≤◌, String, Bool, true, false, Option, none, some, ltb, ◌≡◌, refl, ◌∙◌, ap, arith,
  if_rule,
}
use ninja_vst3_plugin.Names.{
  is_space, is_word, trim_start, is_empty, trim_end, trim, length, take, collapse, clean,
  sanitize_stream_id, sanitize_room_name,
}

-- Only word characters.
abbrev pub IsWord : String → Type 0
IsWord String.[] = Unit {0}
IsWord (String.◌∷◌ c s) = (is_word (code c) ≡ true) × IsWord s

word-not_space : (n : ℕ) → is_word n ≡ true → is_space n ≡ false
unfolding is_word is_space
word-not_space n w = ground arith

underscore-is_word : is_word 95 ≡ true
unfolding is_word
underscore-is_word = refl

collapse-IsWord : (b : Bool) (s : String) → IsWord (collapse b s)
unfolding collapse
collapse-IsWord b String.[] = tt
collapse-IsWord b (String.◌∷◌ c s) =
    ground (arith, underscore-is_word, collapse-IsWord false s, collapse-IsWord true s)

take-IsWord : (n : ℕ) (s : String) → IsWord s → IsWord (take n s)
unfolding take
take-IsWord zero s w = tt
take-IsWord (suc n) String.[] w = tt
take-IsWord (suc n) (String.◌∷◌ c s) (first, w) = (first, take-IsWord n s w)

length-take : (n : ℕ) (s : String) → length (take n s) ≤ n
unfolding take
length-take zero s = omega arith
length-take (suc n) String.[] = omega arith
length-take (suc n) (String.◌∷◌ c s) = omega (arith, length-take n s)

take-not_empty : (n : ℕ) (s : String) → is_empty s ≡ false → is_empty (take (suc n) s) ≡ false
unfolding take
take-not_empty n String.[] full = full
take-not_empty n (String.◌∷◌ c s) full = refl

collapse-not_empty : (s : String) → is_empty s ≡ false → is_empty (collapse false s) ≡ false
unfolding collapse
collapse-not_empty String.[] full = full
collapse-not_empty (String.◌∷◌ c s) full = ground arith

-- A name: word characters only, at least one and at most so many.
pub record IsName (most : ℕ) (s : String) : Type 0 where
  pub word : IsWord s
  pub full : is_empty s ≡ false
  pub short : length s ≤ most

clean-IsName : (n : ℕ) (s : String) → is_empty s ≡ false → IsName (suc n) (clean (suc n) s)
unfolding clean
clean-IsName n s full =
    let kept = collapse false s in
    if_rule (IsName (suc n)) (ltb (suc n) (length kept))
      (λ _. record {
        word = take-IsWord (suc n) kept (collapse-IsWord false s);
        full = take-not_empty n kept (collapse-not_empty s full);
        short = length-take (suc n) kept;
      })
      (λ small. record {
        word = collapse-IsWord false s;
        full = collapse-not_empty s full;
        short = ground (arith, small);
      })

-- What such a text is left as.
trim_start-IsWord : (s : String) → IsWord s → trim_start s ≡ s
unfolding trim_start
trim_start-IsWord String.[] w = refl
trim_start-IsWord (String.◌∷◌ c s) (first, w) = ground (arith, word-not_space (code c) first)

trim_end-IsWord : (s : String) → IsWord s → trim_end s ≡ s
unfolding trim_end
trim_end-IsWord String.[] w = refl
trim_end-IsWord (String.◌∷◌ c s) (first, w) =
    ground (arith, word-not_space (code c) first, trim_end-IsWord s w)

collapse_word : (s : String) → IsWord s → collapse false s ≡ s
unfolding collapse
collapse_word String.[] w = refl
collapse_word (String.◌∷◌ c s) (first, w) = ground (arith, first, collapse_word s w)

trim-IsWord : (s : String) → IsWord s → trim s ≡ s
trim-IsWord s w = ap trim_end (trim_start-IsWord s w) ∙ trim_end-IsWord s w

clean-name : (n : ℕ) (s : String) → IsName n s → clean n s ≡ s
unfolding clean
clean-name n s h = ground (arith, collapse_word s h.word, h.short)

sanitize_stream_id-name :
    (generated s : String) → IsName 64 s → sanitize_stream_id generated (some s) ≡ s
unfolding sanitize_stream_id
sanitize_stream_id-name generated s h =
    ground (arith, trim-IsWord s h.word, h.full, clean-name 64 s h)

stream_id_named :
    (generated : String) (asked : Option String)
    → IsName 64 generated
    → IsName 64 (sanitize_stream_id generated asked)
unfolding sanitize_stream_id
stream_id_named generated none h = h
stream_id_named generated (some s) h =
    if_rule (IsName 64) (is_empty (trim s)) (λ _. h) (λ full. clean-IsName 63 (trim s) full)

-- Whatever stream ID is asked for, or none, the one in use is one to 64 letters, digits and
-- underscores, if the generated one is, and sanitizing that again changes nothing.
pub sanitize_stream_id-IsName :
    (generated : String) (asked : Option String)
    → IsName 64 generated
    → IsName 64 (sanitize_stream_id generated asked)
      × (sanitize_stream_id generated (some (sanitize_stream_id generated asked))
          ≡ sanitize_stream_id generated asked)
sanitize_stream_id-IsName generated asked h =
    let named = stream_id_named generated asked h in
    (named, sanitize_stream_id-name generated (sanitize_stream_id generated asked) named)

pub sanitized_name : (room : String) → IsName 30 room → sanitize_room_name (some room) ≡ some room
unfolding sanitize_room_name
sanitized_name room h = ground (arith, trim-IsWord room h.word, h.full, clean-name 30 room h)

-- A room name that is not empty once trimmed gives one to 30 letters, digits and underscores, and
-- sanitizing these again changes nothing.
pub sanitize_room_name-IsName :
    (room : String)
    → is_empty (trim room) ≡ false
    → (sanitize_room_name (some room) ≡ some (clean 30 (trim room)))
      × IsName 30 (clean 30 (trim room))
      × (sanitize_room_name (some (clean 30 (trim room))) ≡ some (clean 30 (trim room)))
unfolding sanitize_room_name
sanitize_room_name-IsName room full =
    let h = clean-IsName 29 (trim room) full in
    (ground (arith, full), h, sanitized_name (clean 30 (trim room)) h)
