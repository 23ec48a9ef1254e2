-- ===== src/Names/Trim.antt =====
-- `trim`.
use Prim.Native.Char.{code}
use ninja_vst3_plugin.Prelude.{String, Bool, true, not, ◌≡◌, refl, ◌∙◌, ap, arith}
use ninja_vst3_plugin.Names.{is_space, trim_start, trim_end, trim}

-- Trimming again changes nothing.
trim_start_idem : (s : String) → trim_start (trim_start s) ≡ trim_start s
unfolding trim_start
trim_start_idem String.[] = refl
trim_start_idem (String.◌∷◌ c s) = ground (arith, trim_start_idem s)

trim_end_idem : (s : String) → trim_end (trim_end s) ≡ trim_end s
unfolding trim_end
trim_end_idem String.[] = refl
trim_end_idem (String.◌∷◌ c s) = ground (arith, trim_end_idem s)

-- What `trim_start` leaves begins with no white space, and so does what `trim_end` leaves of it.
abbrev begins_clear : String → Bool
begins_clear String.[] = true
begins_clear (String.◌∷◌ c s) = not (is_space (code c))

trim_start-clear : (s : String) → begins_clear (trim_start s) ≡ true
unfolding trim_start
trim_start-clear String.[] = refl
trim_start-clear (String.◌∷◌ c s) = ground (arith, trim_start-clear s)

clear-trim_start : (s : String) → begins_clear s ≡ true → trim_start s ≡ s
unfolding trim_start
clear-trim_start String.[] clear = refl
clear-trim_start (String.◌∷◌ c s) clear = ground (arith, clear)

trim_end-clear : (s : String) → begins_clear s ≡ true → begins_clear (trim_end s) ≡ true
unfolding trim_end
trim_end-clear String.[] clear = refl
trim_end-clear (String.◌∷◌ c s) clear = ground (arith, clear)

pub trim_idem : (s : String) → trim (trim s) ≡ trim s
trim_idem s =
    ap trim_end (clear-trim_start (trim s) (trim_end-clear (trim_start s) (trim_start-clear s)))
    ∙ trim_end_idem (trim_start s)
