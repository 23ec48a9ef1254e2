-- ===== src/Media/Merge.antt =====
-- `_mergeMediaConfigs`: updates of the video and audio settings, where null removes a setting or a
-- whole section. Settings are tables of numbers; undefined settings change nothing.
pub mod Sections
use ninja_vst3_plugin.Prelude.{ℕ, String, Option, none, some, List, [], ◌∷◌}
use ninja_vst3_plugin.Prelude.Table.{Table, get, set, delete}

abbrev pub Section : Type 0
Section = Table ℕ

pub data Change : Type 0 where
  undefined : Change
  null : Change
  value : ℕ → Change

-- An update of a section: it is absent or no object, null, or an object.
pub data SectionUpdate : Type 0 where
  absent : SectionUpdate
  removed : SectionUpdate
  changes : List (String × Change) → SectionUpdate

pub record MediaConfig : Type 0 where
  pub video : Option Section
  pub audio : Option Section

pub record MediaUpdate : Type 0 where
  pub video : SectionUpdate
  pub audio : SectionUpdate

unfoldable pub apply_change : String → Change → Section → Section
apply_change key undefined section = section
apply_change key null section = delete key section
apply_change key (value n) section = set key n section

unfoldable pub apply_changes : List (String × Change) → Section → Section
apply_changes [] section = section
apply_changes ((key, change) ∷ rest) section = apply_changes rest (apply_change key change section)

abbrev pub section_or_empty : Option Section → Section
section_or_empty none = []
section_or_empty (some section) = section

-- Object.keys(section).length === 0
abbrev pub unless_empty : Section → Option Section
unless_empty [] = none
unless_empty (entry ∷ rest) = some (entry ∷ rest)

unfoldable pub merge_section : Option Section → SectionUpdate → Option Section
merge_section base absent = base
merge_section base removed = none
merge_section base (changes l) = unless_empty (apply_changes l (section_or_empty base))

abbrev pub base_section : (MediaConfig → Option Section) → Option MediaConfig → Option Section
base_section part none = none
base_section part (some config) = part config

abbrev pub section_update : (MediaUpdate → SectionUpdate) → Option MediaUpdate → SectionUpdate
section_update part none = absent
section_update part (some update) = part update

abbrev pub unless_blank : MediaConfig → Option MediaConfig
unless_blank config = elim config.video [
  | some _ ↦ some config
  | none ↦ elim config.audio [ none ↦ none | some _ ↦ some config ]
]

-- `none` is null.
unfoldable pub merge_media_configs : Option MediaConfig → Option MediaUpdate → Option MediaConfig
merge_media_configs base update = unless_blank (record {
  video =
      merge_section (base_section (λ config. config.video) base)
        (section_update (λ u. u.video) update);
  audio =
      merge_section (base_section (λ config. config.audio) base)
        (section_update (λ u. u.audio) update);
})
