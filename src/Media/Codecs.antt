-- ===== src/Media/Codecs.antt =====
-- `_buildCodecPreferenceList`: the requested codec before all others, with the retransmission codecs
-- that belong to it. Names are given in lower case, as both are made before they are compared. The
-- payload type that a codec's `apt=` names is given as a field; `none` is no match.
pub mod Preferred
use ninja_vst3_plugin.Prelude.{
  ℕ, String, Bool, true, false, Option, none, some, List, [], ◌∷◌, ◌++◌, filter, any, ◌==◌, str_eq,
  if◌then◌else◌,
}

-- `mime` is the empty text where there is none; `is_rtx` is `mime.endsWith('/rtx')`.
pub record Codec : Type 0 where
  pub mime : String
  pub is_rtx : Bool
  pub payload_type : Option ℕ
  pub apt : Option ℕ

pub data Class : Type 0 where
  primary : Class
  associated : Class
  fallback : Class

-- The tests of the loop over the codecs.
unfoldable pub classify : String → Codec → Class
classify target codec =
    if str_eq codec.mime ""
    then fallback
    else if str_eq codec.mime target
    then primary
    else if codec.is_rtx
    then associated
    else fallback

abbrev pub is_primary : Class → Bool
is_primary primary = true
is_primary associated = false
is_primary fallback = false

abbrev pub is_associated : Class → Bool
is_associated primary = false
is_associated associated = true
is_associated fallback = false

abbrev pub is_fallback : Class → Bool
is_fallback primary = false
is_fallback associated = false
is_fallback fallback = true

-- The loop's three lists.
abbrev pub primaries : String → List Codec → List Codec
primaries target codecs = filter (λ codec. is_primary (classify target codec)) codecs

abbrev pub associates : String → List Codec → List Codec
associates target codecs = filter (λ codec. is_associated (classify target codec)) codecs

abbrev pub fallbacks : String → List Codec → List Codec
fallbacks target codecs = filter (λ codec. is_fallback (classify target codec)) codecs

abbrev pub has_payload : ℕ → Codec → Bool
has_payload n codec = elim codec.payload_type [ none ↦ false | some m ↦ m == n ]

-- The codec's `apt` names the payload type of one in the list.
abbrev pub belongs : List Codec → Codec → Bool
belongs codecs codec = elim codec.apt [ none ↦ false | some n ↦ any (has_payload n) codecs ]

abbrev pub when_any : List Codec → List Codec → Option (List Codec)
when_any [] l = none
when_any (_ ∷ _) l = some l

-- `none` is null. The requested codec is given, as the empty text where there is none.
unfoldable pub build_codec_preference_list : List Codec → String → Option (List Codec)
build_codec_preference_list codecs target =
    let first = primaries target codecs in
    if str_eq target ""
    then none
    else when_any first
        (first ++ (filter (belongs first) (associates target codecs) ++ fallbacks target codecs))
