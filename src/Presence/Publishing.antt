-- ===== src/Presence/Publishing.antt =====
-- What publishing announces, and under which names.
use ninja_vst3_plugin.Prelude.{
  ℕ, suc, ◌∙◌, String, true, false, none, some, List, [], ◌∷◌, ◌++◌, ◌≡◌, refl, ap, arith,
}
use ninja_vst3_plugin.Names.{Password, is_empty, append, effective_password, strip_hash}
use ninja_vst3_plugin.Names.Clean.{IsName, sanitize_stream_id-IsName}
use ninja_vst3_plugin.Names.Suffix.{strip_hash-append}
use ninja_vst3_plugin.Presence.State.{
  Presence, PublishOptions, seed, send_message, is_open, is_publishing,
}
use ninja_vst3_plugin.Presence.{or_given, hash_stream_id, stream_id_for, announced}
use ninja_vst3_plugin.Presence.Stopping.{stop_publishing, stop_publishing_flushed, flush_elapsed}

module _ (encode decode : String → String) (digest : String → ℕ → String) where
  -- The first hash is kept, and one that is kept is used.
  hash_stream_id_first :
      (stream_id p : String) (s : Presence)
      → effective_password s.password ≡ some p
      → s.hash ≡ none
      → hash_stream_id encode decode digest stream_id s ≡ (
        append stream_id (digest (append p s.salt) 6),
        record s { hash = some (digest (append p s.salt) 6) },
      )
  unfolding hash_stream_id
  hash_stream_id_first stream_id p s on fresh = simp (hash_stream_id, on, fresh)

  hash_stream_id_known :
      (stream_id hash p : String) (s : Presence)
      → effective_password s.password ≡ some p
      → s.hash ≡ some hash
      → hash_stream_id encode decode digest stream_id s ≡ (append stream_id hash, s)
  unfolding hash_stream_id
  hash_stream_id_known stream_id hash p s on known = simp (hash_stream_id, on, known)

  -- From a state that keeps no hash yet, the first stream ID that is hashed settles the hash for the
  -- next one, also where another password is in effect by then: the next is hashed with the password
  -- of the first.
  pub hash_stream_id-kept :
      (first second : String) (password : Password) (p q : String) (s : Presence)
      → s.hash ≡ none
      → effective_password s.password ≡ some p
      → effective_password password ≡ some q
      → (hash_stream_id encode decode digest second
          (record ((hash_stream_id encode decode digest first s).1) { password = password })).0
        ≡ append second (digest (append p s.salt) 6)
  hash_stream_id-kept first second password p q s fresh before now =
      let kept = hash_stream_id_first first p s before fresh in
      ap (λ r. r.0)
        (hash_stream_id_known second (digest (append p s.salt) 6) q
          (record ((hash_stream_id encode decode digest first s).1) { password = password }) now
          (ap (λ r. r.1.hash) kept))

  -- With a password in effect, no hash kept yet and an open socket, announcing asks the server for one
  -- seed: the stream ID, which is one to 64 word characters, with the hash appended that is now kept.
  -- The instance publishes under that stream ID, and whoever has the hash strips the seed to it. The
  -- digest must not be empty and the generated stream ID must be such a name.
  pub announced-seed :
      (generated p : String) (options : PublishOptions) (s : Presence)
      → ((t : String) (n : ℕ) → is_empty (digest t n) ≡ false)
      → IsName 64 generated
      → effective_password s.password ≡ some p
      → s.hash ≡ none
      → is_open s.sdk.signaling ≡ true
      → ((announced encode decode digest generated options s).requests
          ≡ s.requests
            ++ (seed (
                  append
                    (stream_id_for encode decode digest generated options s)
                    (digest (append p s.salt) 6))
                ∷ []))
        × IsName 64 (stream_id_for encode decode digest generated options s)
        × (strip_hash (announced encode decode digest generated options s).hash (
              append
                (stream_id_for encode decode digest generated options s)
                (digest (append p s.salt) 6))
            ≡ stream_id_for encode decode digest generated options s)
        × (is_publishing (announced encode decode digest generated options s) ≡ true)
        × ((announced encode decode digest generated options s).stream_id
            ≡ some (stream_id_for encode decode digest generated options s))
  unfolding announced send_message
  announced-seed generated p options s full named on fresh open_now =
      let stream_id = stream_id_for encode decode digest generated options s in
      let hash = digest (append p s.salt) 6 in
      let id_named =
        (sanitize_stream_id-IsName generated (or_given options.stream_id s.pending_stream_id)
          named).0 in
      let kept = hash_stream_id_first stream_id p s on fresh in
      let stripped = strip_hash-append stream_id hash id_named.full (full (append p s.salt) 6) in
      (
        rw (kept, open_now) refl,
        id_named,
        rw (kept, open_now) stripped,
        rw (kept, open_now) refl,
        rw (kept, open_now) refl,
      )

stop_publishing-flushes :
    (s : Presence) → is_publishing s ≡ true → (stop_publishing s).flushes ≡ suc s.flushes
unfolding stop_publishing
stop_publishing-flushes s on = ground (arith, on)

announced-flushes :
    (encode decode : String → String) (digest : String → ℕ → String) (generated : String)
    (options : PublishOptions) (s : Presence)
    → (announced encode decode digest generated options s).flushes ≡ s.flushes
unfolding announced send_message hash_stream_id
announced-flushes encode decode digest generated options s = ground arith

flush_elapsed_lem :
    (local_tracks : List ℕ) (n : ℕ) (s : Presence)
    → s.flushes ≡ suc n
    → flush_elapsed local_tracks s ≡ stop_publishing_flushed local_tracks (record s { flushes = n })
unfolding flush_elapsed
flush_elapsed_lem local_tracks n s e = simp (flush_elapsed, e)

-- The application stops while the instance publishes. An `announce` that ends before the byes are
-- flushed makes it publish again, but when they are flushed it publishes no more and has no stream ID,
-- though what it wants is kept.
pub announced-flush_elapsed :
    (encode decode : String → String) (digest : String → ℕ → String) (generated : String)
    (options : PublishOptions) (local_tracks : List ℕ) (s : Presence)
    → is_publishing s ≡ true
    → (is_publishing (announced encode decode digest generated options (stop_publishing s)) ≡ true)
      × (is_publishing (
            flush_elapsed local_tracks
              (announced encode decode digest generated options (stop_publishing s)))
          ≡ false)
      × ((flush_elapsed local_tracks
            (announced encode decode digest generated options (stop_publishing s))).stream_id
          ≡ none)
      × ((flush_elapsed local_tracks
            (announced encode decode digest generated options (stop_publishing s))).publication
          ≡ some (record {
            data_only = true;
            stream = none;
            stream_id = stream_id_for encode decode digest generated options (stop_publishing s);
            options = record options {
              stream_id =
                  some (stream_id_for encode decode digest generated options (stop_publishing s));
            };
          }))
unfolding announced send_message stop_publishing_flushed
announced-flush_elapsed encode decode digest generated options local_tracks s on =
    let again = announced encode decode digest generated options (stop_publishing s) in
    let pending =
      announced-flushes encode decode digest generated options (stop_publishing s)
      ∙ stop_publishing-flushes s on in
    let flushed = flush_elapsed_lem local_tracks s.flushes again pending in
    (
      ground arith,
      ap is_publishing flushed,
      ap (λ r. r.stream_id) flushed,
      ap (λ r. r.publication) flushed,
    )
