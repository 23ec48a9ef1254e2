-- ===== src/Media/Merge/Sections.antt =====
-- What a merged section holds.
use ninja_vst3_plugin.Prelude.{
  ℕ, String, Option, none, some, List, [], ◌∷◌, ◌≡◌, refl, arith, ap, ◌∙◌, str_eq, if◌then◌else◌,
}
use ninja_vst3_plugin.Prelude.Table.{get, get-set, get-delete}
use ninja_vst3_plugin.Media.Merge.{
  Section, Change, undefined, null, value, SectionUpdate, absent, removed, changes, apply_change,
  apply_changes, section_or_empty, unless_empty, merge_section,
}

abbrev pub setting : String → Option Section → Option ℕ
setting key section = get key (section_or_empty section)

-- What the change makes of a setting.
abbrev pub changed : Option ℕ → Change → Option ℕ
changed before undefined = before
changed before null = none
changed before (value n) = some n

-- The last change of the key decides.
unfoldable pub final_setting : String → List (String × Change) → Option ℕ → Option ℕ
final_setting key [] before = before
final_setting key ((other, change) ∷ rest) before =
    final_setting key rest (if str_eq other key then changed before change else before)

get-apply_change :
    (key other : String) (change : Change) (section : Section)
    → get key (apply_change other change section)
      ≡ (if str_eq other key then changed (get key section) change else get key section)
unfolding apply_change
get-apply_change key other undefined section = ground arith
get-apply_change key other null section = get-delete other key section
get-apply_change key other (value n) section = get-set other key n section

get-apply_changes :
    (key : String) (l : List (String × Change)) (section : Section)
    → get key (apply_changes l section) ≡ final_setting key l (get key section)
unfolding apply_changes final_setting
get-apply_changes key [] section = refl
get-apply_changes key ((other, change) ∷ rest) section =
    get-apply_changes key rest (apply_change other change section)
    ∙ ap (final_setting key rest) (get-apply_change key other change section)

setting-unless_empty :
    (key : String) (section : Section) → setting key (unless_empty section) ≡ get key section
setting-unless_empty key [] = refl
setting-unless_empty key (entry ∷ rest) = refl

abbrev pub update_outcome : String → SectionUpdate → Option ℕ → Option ℕ
update_outcome key absent before = before
update_outcome key removed before = none
update_outcome key (changes l) before = final_setting key l before

-- A setting of a merged section is the last defined change of it in the update, where null removes
-- it; it is as before where the update has no such change, and gone where the section is null.
pub setting-merge_section :
    (key : String) (base : Option Section) (update : SectionUpdate)
    → setting key (merge_section base update) ≡ update_outcome key update (setting key base)
unfolding merge_section get
setting-merge_section key base absent = refl
setting-merge_section key base removed = refl
setting-merge_section key base (changes l) =
    setting-unless_empty key (apply_changes l (section_or_empty base))
    ∙ get-apply_changes key l (section_or_empty base)
