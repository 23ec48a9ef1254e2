-- ===== src/Names.antt =====
-- Stream IDs, room names and passwords: the sanitizers, the password in effect and the hash suffix
-- of a stream ID. A text is walked character by character; where the source counts UTF-16 units, the
-- text has only word characters, which are one unit each.
pub mod Trim
pub mod Clean
pub mod Suffix
use Prim.Native.Char.{Char, code}
use ninja_vst3_plugin.Prelude.{
  ℕ, zero, suc, ◌-◌, String, Bool, true, false, not, ◌&&◌, ◌||◌, Option, none, some, leb, ltb, ◌==◌,
  str_eq, if◌then◌else◌,
}

-- The characters that `trim` removes: white space and line ends.
unfoldable pub is_space : ℕ → Bool
is_space n =
    (leb 9 n && leb n 13)
    || (n == 32)
    || (n == 160)
    || (n == 5760)
    || (leb 8192 n && leb n 8202)
    || (n == 8232)
    || (n == 8233)
    || (n == 8239)
    || (n == 8287)
    || (n == 12288)
    || (n == 65279)

-- \w
unfoldable pub is_word : ℕ → Bool
is_word n =
    (leb b'0' n && leb n b'9')
    || (leb b'A' n && leb n b'Z')
    || (leb b'a' n && leb n b'z')
    || (n == b'_')

unfoldable pub trim_start : String → String
trim_start String.[] = ""
trim_start (String.◌∷◌ c s) =
    let rest = trim_start s in if is_space (code c) then rest else String.◌∷◌ c s

abbrev pub is_empty : String → Bool
is_empty String.[] = true
is_empty (String.◌∷◌ c s) = false

unfoldable pub trim_end : String → String
trim_end String.[] = ""
trim_end (String.◌∷◌ c s) =
    let rest = trim_end s in if is_empty rest && is_space (code c) then "" else String.◌∷◌ c rest

abbrev pub trim : String → String
trim s = trim_end (trim_start s)

abbrev pub length : String → ℕ
length String.[] = 0
length (String.◌∷◌ c s) = suc (length s)

-- substring(0, n)
unfoldable pub take : ℕ → String → String
take zero s = ""
take (suc n) String.[] = ""
take (suc n) (String.◌∷◌ c s) = String.◌∷◌ c (take n s)

unfoldable pub drop : ℕ → String → String
drop zero s = s
drop (suc n) String.[] = ""
drop (suc n) (String.◌∷◌ c s) = drop n s

unfoldable pub append : String → String → String
append String.[] t = t
append (String.◌∷◌ c s) t = String.◌∷◌ c (append s t)

-- replace(/[\W]+/g, "_"), inside a run of other characters or not.
unfoldable pub collapse : Bool → String → String
collapse in_run String.[] = ""
collapse in_run (String.◌∷◌ c s) =
    let after_word = collapse false s in
    let after_other = collapse true s in
    if is_word (code c)
    then String.◌∷◌ c after_word
    else if in_run
    then after_other
    else String.◌∷◌ "_" after_other

-- The replacement and the cut that the two sanitizers share.
unfoldable pub clean : ℕ → String → String
clean most s =
    let sanitized = collapse false s in
    if ltb most (length sanitized) then take most sanitized else sanitized

-- `_sanitizeStreamID`; the stream ID that it generates is given.
unfoldable pub sanitize_stream_id : String → Option String → String
sanitize_stream_id generated none = generated
sanitize_stream_id generated (some stream_id) =
    if is_empty (trim stream_id) then generated else clean 64 (trim stream_id)

-- `_sanitizeRoomName`; `none` is false, null and undefined, which give false.
unfoldable pub sanitize_room_name : Option String → Option String
sanitize_room_name none = none
sanitize_room_name (some room) = some (if is_empty (trim room) then "" else clean 30 (trim room))

-- A password that is given: false or null, undefined, or a text.
pub data Password : Type 0 where
  disabled : Password
  undefined : Password
  text : String → Password

module _ (encode : String → String) where
  -- _sanitizePassword
  unfoldable pub sanitize_password : Password → Password
  sanitize_password disabled = disabled
  sanitize_password undefined = text ""
  sanitize_password (text password) =
      text (if is_empty (trim password) then "" else encode (trim password))

abbrev pub default_password : String
default_password = "someEncryptionKey123"

-- _getEffectivePassword
unfoldable pub effective_password : Password → Option String
effective_password disabled = none
effective_password undefined = some default_password
effective_password (text password) =
    some (if is_empty (trim password) then default_password else trim password)

-- `_stripHashFromStreamID`, with the hash that is cached.
unfoldable pub strip_hash : Option String → String → String
strip_hash none stream_id = stream_id
strip_hash (some hash) stream_id =
    let kept = length stream_id - length hash in
    if (length hash == 0) || leb (length stream_id) (length hash)
    then stream_id
    else if str_eq (drop kept stream_id) hash
    then take kept stream_id
    else stream_id
