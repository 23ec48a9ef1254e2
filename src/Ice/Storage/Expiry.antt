-- ===== src/Ice/Storage/Expiry.antt =====
-- What `_getStorage` reads after `_setStorage`.
use ninja_vst3_plugin.Prelude.{
  ℕ, ◌+◌, ◌*◌, ◌≤◌, ◌<◌, ◌≡◌, ◌≢◌, String, true, not, none, some, arith, eq_iff, ltb, if◌then◌else◌,
}
use ninja_vst3_plugin.Prelude.Table.{get, set, has, get-set, get-delete}
use ninja_vst3_plugin.Ice.Storage.{Storage, entry, get_storage, set_storage}

module _ {ℓ} {V : Type ℓ} where
  -- A value that is stored for some minutes, where there is a storage that can be written, is read
  -- back up to and including the last millisecond of that time. Later reads give null and remove
  -- the item. Other keys keep their items.
  pub get-set_storage :
      (key : String) (value : V) (ttl now later : ℕ) (s : Storage V)
      → s.available ≡ true
      → s.writable ≡ true
      → 0 < now
      → (later ≤ now + ttl * 60 * 1000
          → (get_storage key later (set_storage key value ttl now s)).0 ≡ some value)
        × (now + ttl * 60 * 1000 < later
            → ((get_storage key later (set_storage key value ttl now s)).0 ≡ none)
              × (get key (get_storage key later (set_storage key value ttl now s)).1.items ≡ none))
        × ((other : String)
            → key ≢ other
            → get other (set_storage key value ttl now s).items ≡ get other s.items)
  unfolding set_storage get_storage
  get-set_storage key value ttl now later s a w p =
      let stored = entry value (now + ttl * 60 * 1000) in
      let found = get-set key key stored s.items in
      let gone = get-delete key key (set key stored s.items) in
      (
        λ h. ground (arith, found, eq_iff key key),
        λ h. (ground (arith, found, eq_iff key key), ground (arith, found, gone, eq_iff key key)),
        λ other ne. ground (arith, get-set key other stored s.items, eq_iff key other),
      )

  -- A value that is stored for some minutes, where there is a storage that can be written, is read
  -- back up to and including the last millisecond of that time, and then the item is kept; a later
  -- read gives null and removes the item.
  pub get-set_storage_by_time :
      (key : String) (value : V) (ttl now later : ℕ) (s : Storage V)
      → s.available ≡ true
      → s.writable ≡ true
      → 0 < now
      → ((get_storage key later (set_storage key value ttl now s)).0
          ≡ (if ltb (now + ttl * 60 * 1000) later then none else some value))
        × (has key (get_storage key later (set_storage key value ttl now s)).1.items
            ≡ not (ltb (now + ttl * 60 * 1000) later))
  unfolding set_storage get_storage
  get-set_storage_by_time key value ttl now later s a w p =
      let stored = entry value (now + ttl * 60 * 1000) in
      let found = get-set key key stored s.items in
      let gone = get-delete key key (set key stored s.items) in
      (ground (arith, found, eq_iff key key), ground (arith, found, gone, eq_iff key key))
