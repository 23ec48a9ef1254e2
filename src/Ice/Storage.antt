-- ===== src/Ice/Storage.antt =====
-- js_sdk/vdoninja-sdk.js: `_getStorage` and `_setStorage`, a cache with expiry over `localStorage`.
pub mod Expiry
use ninja_vst3_plugin.Prelude.{
  ℕ, ◌+◌, ◌*◌, String, Bool, true, false, not, ◌&&◌, Option, none, some, ltb, ◌==◌, if◌then◌else◌,
}
use ninja_vst3_plugin.Prelude.Table.{Table, get, set, delete}

-- A stored text: the JSON of `{ value, expiry }`, or one that makes `JSON.parse` or the reading of
-- its fields throw.
pub data Item {ℓ} (V : Type ℓ) : Type ℓ where
  entry : V → ℕ → Item V
  malformed : Item V

-- `writable` is false where `setItem` throws (quota, private mode).
pub record Storage {ℓ} (V : Type ℓ) : Type ℓ where
  pub available : Bool
  pub writable : Bool
  pub items : Table (Item V)

-- data.expiry && Date.now() > data.expiry
abbrev pub is_expired : ℕ → ℕ → Bool
is_expired expiry now = not (expiry == 0) && ltb expiry now

module _ {ℓ} {V : Type ℓ} where
  unfoldable pub read_item : String → ℕ → Storage V → Option (Item V) → Option V × Storage V
  read_item key now s none = (none, s)
  read_item key now s (some malformed) = (none, s)
  read_item key now s (some (entry value expiry)) =
      if is_expired expiry now
      then (none, record s { items = delete key s.items })
      else (some value, s)

  -- `none` is null.
  unfoldable pub get_storage : String → ℕ → Storage V → Option V × Storage V
  unfolding read_item
  get_storage key now s = if s.available then read_item key now s (get key s.items) else (none, s)

  unfoldable pub set_storage : String → V → ℕ → ℕ → Storage V → Storage V
  set_storage key value ttl_minutes now s =
      if s.available && s.writable
      then record s { items = set key (entry value (now + ttl_minutes * 60 * 1000)) s.items }
      else s
