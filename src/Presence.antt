-- ===== src/Presence.antt =====
-- Rooms and publishing: `joinRoom`, `leaveRoom`, `publish`, `announce` and the replay of what the
-- instance wants after a reconnect. The generated stream ID, `encodeURIComponent` and
-- `decodeURIComponent`, and the hex digits of a text's SHA-256 digest are given; the digest is taken
-- to be there at once.
pub mod State
pub mod Rooms
pub mod Listings
pub mod Publishing
pub mod Stops
pub mod Requests
pub mod Stopping
use ninja_vst3_plugin.Prelude.{
  ℕ, suc, String, Bool, true, false, not, ◌&&◌, ◌||◌, Option, none, some, List, [], ◌∷◌, ◌++◌, any,
  ◌==◌, if◌then◌else◌,
}
use ninja_vst3_plugin.Prelude.Table.{get, set}
use ninja_vst3_plugin.Peer.Types.{Kind, viewer, publisher, Pair, Sdk, Message, bye, StreamState}
use ninja_vst3_plugin.Peer.State.{update, has_open_channel, remove_side}
use ninja_vst3_plugin.Peer.Recovery.{finalize}
use ninja_vst3_plugin.Session.{socket_closed}
use ninja_vst3_plugin.Data.Send.{only_publisher, send_data_internal}
use ninja_vst3_plugin.Mute.State.{Monitors, Track}
use ninja_vst3_plugin.Mute.{clear_all, monitor, tell_stopped}
use ninja_vst3_plugin.Mute.Events.{track_stopped}
use ninja_vst3_plugin.Names.{
  Password, disabled, undefined, text, is_empty, append, sanitize_stream_id, sanitize_room_name,
  sanitize_password, effective_password, default_password,
}
use ninja_vst3_plugin.Presence.State.*

-- options.room || this.room
abbrev pub or_given : Option String → Option String → Option String
or_given none b = b
or_given (some a) b = if is_empty a then b else some a

abbrev pub is_there {ℓ} : {A : Type ℓ} → Option A → Bool
is_there none = false
is_there (some _) = true

-- The sanitized name, where it is one; false and "" are none.
unfoldable pub room_of : Option String → Option String
room_of asked = elim (sanitize_room_name asked) [
  | none ↦ none
  | some room ↦ if is_empty room then none else some room
]

module _ (encode decode : String → String) (digest : String → ℕ → String) where
  abbrev pub given_password : Password → Password → Password
  given_password undefined mine = mine
  given_password disabled mine = sanitize_password encode disabled
  given_password (text t) mine = sanitize_password encode (text t)

  -- typeof password === 'string' ? decodeURIComponent(password) : password
  abbrev pub raw_password : Password → Password
  raw_password disabled = disabled
  raw_password undefined = undefined
  raw_password (text t) = text (decode t)

  -- What `this.password` becomes: an empty password is the default one.
  abbrev pub kept_password : Password → Password
  kept_password disabled = disabled
  kept_password undefined = undefined
  kept_password (text t) =
      if is_empty t then sanitize_password encode (text default_password) else text t

  -- `_hashRoom`, where the password is not disabled.
  unfoldable pub hashed_room : String → Presence → String
  hashed_room room s = elim (effective_password s.password) [
    | none ↦ room
    | some password ↦ digest (append room (append password s.salt)) 16
  ]

  -- `joinRoom` for the name and the password made from its options.
  unfoldable pub request_join : String → Password → Bool → Presence → Presence
  request_join room password claim s =
      let wanted = record s {
        room_intent =
            some (record { room = room; password = raw_password password; claim = claim });
        password = kept_password password;
      } in
      let asked = send_message (joinroom (hashed_room room wanted) claim) wanted in
      record asked {
        joins = asked.joins ++ (record { id = asked.next_join; room = room } ∷ []);
        next_join = suc asked.next_join;
      }

  -- `joinRoom`, up to the wait for the listing.
  unfoldable pub join_room : JoinOptions → Presence → Option Failure × Presence
  join_room options s =
      if not s.sdk.is_connected
      then (some not_connected, s)
      else if s.has_joined
      then (none, s)
      else elim (room_of (or_given options.room s.room_option)) [
        | none ↦ (some room_required, s)
        | some room ↦
            (none, request_join room (given_password options.password s.password) options.claim s)
      ]

  -- The room's part of `_restoreConnectionIntent`.
  unfoldable pub restore_room : Presence → Option Failure × Presence
  restore_room s = elim s.room_intent [
    | none ↦ (none, s)
    | some wanted ↦
        join_room
          (record { room = some wanted.room; password = wanted.password; claim = wanted.claim }) s
  ]

  -- `_hashStreamID`, with the hash that it keeps.
  unfoldable pub hash_stream_id : String → Presence → String × Presence
  hash_stream_id stream_id s = elim (effective_password s.password) [
    | none ↦ (stream_id, s)
    | some password ↦ elim s.hash [
      | some hash ↦ (append stream_id hash, s)
      | none ↦
          let hash = digest (append password s.salt) 6 in
          (append stream_id hash, record s { hash = some hash })
    ]
  ]

  -- The stream ID in use; `generated` is the one that would be generated.
  abbrev pub stream_id_for : String → PublishOptions → Presence → String
  stream_id_for generated options s =
      sanitize_stream_id generated (or_given options.stream_id s.pending_stream_id)

  -- The room that `publish` and `announce` join first, if one is given.
  unfoldable pub join_first : PublishOptions → Presence → Option Failure × Presence
  join_first options s =
      if s.has_joined || is_empty (elim options.room [ none ↦ "" | some room ↦ room ])
      then (none, s)
      else join_room (record { room = options.room; password = options.password; claim = false }) s

  -- The end of `announce`, once a room is joined where one was asked for.
  unfoldable pub announced : String → PublishOptions → Presence → Presence
  announced generated options s =
      let stream_id = stream_id_for generated options s in
      let (hashed, known) = hash_stream_id stream_id s in
      let told =
        send_message (seed hashed)
          (set_publishing true (record known { stream_id = some stream_id })) in
      announce_news (started stream_id hashed true) (record told {
        publication = some (record {
          data_only = true;
          stream = none;
          stream_id = stream_id;
          options = record options { stream_id = some stream_id };
        });
      })

  unfoldable pub monitor_each : List ℕ → Monitors → Monitors
  monitor_each [] s = s
  monitor_each (t ∷ ts) s = monitor_each ts (monitor t s)

  -- this.streams.set(streamID, …)
  abbrev pub track_own : String → Presence → Presence
  track_own stream_id s = record s {
    sdk = record s.sdk {
      streams =
          set stream_id
            (record {
              first_seen = s.sdk.now;
              state = StreamState.connected;
              last_seen = s.sdk.now;
              uuid = s.uuid;
            })
            s.sdk.streams;
    };
  }

  -- The end of `publish`, once a room is joined where one was asked for; the stream's video tracks
  -- are given.
  unfoldable pub published : ℕ → List ℕ → String → PublishOptions → Presence → Presence
  published stream video_tracks generated options s =
      let stream_id = stream_id_for generated options s in
      let (hashed, known) = hash_stream_id stream_id s in
      let on = set_publishing true (record known { stream_id = some stream_id }) in
      let told =
        send_message (seed hashed)
          (record on { monitors = monitor_each video_tracks (clear_all on.monitors) }) in
      track_own stream_id (
        announce_news (started stream_id hashed false) (record told {
          publication = some (record {
            data_only = false;
            stream = some stream;
            stream_id = stream_id;
            options = record options { stream_id = some stream_id };
          });
        }))

  -- `announce` up to the room, less the info.
  unfoldable pub announce : PublishOptions → Presence → Option Failure × Presence
  announce options s =
      if not s.sdk.is_connected then (some not_connected, s) else join_first options s

  -- `publish` up to the room, less the media preferences and the info; `none` is no MediaStream.
  unfoldable pub publish : Option ℕ → PublishOptions → Presence → Option Failure × Presence
  publish none options s =
      if not s.sdk.is_connected then (some not_connected, s) else (some stream_required, s)
  publish (some stream) options s =
      if not s.sdk.is_connected
      then (some not_connected, s)
      else if is_publishing s
      then (some already_publishing, s)
      else join_first options (record s { local_stream = some stream })

  -- The publishing part of `_restoreConnectionIntent`.
  unfoldable pub restore_publishing : Presence → Option Failure × Presence
  restore_publishing s = elim s.publication [
    | none ↦ (none, s)
    | some wanted ↦
        let options = record wanted.options { stream_id = some wanted.stream_id } in
        if wanted.data_only
        then announce options s
        else if is_there wanted.stream
        then publish wanted.stream options s
        else (none, s)
  ]

-- How a promise was settled.
unfoldable pub outcome_of : ℕ → List (ℕ × Bool) → Option Bool
outcome_of i [] = none
outcome_of i ((j, b) ∷ rest) = let known = outcome_of i rest in if j == i then some b else known

-- `resolve` and `reject`: a promise is settled once.
unfoldable pub settle_promise : ℕ → Bool → List (ℕ × Bool) → List (ℕ × Bool)
settle_promise i b outcomes = elim (outcome_of i outcomes) [
  | none ↦ outcomes ++ ((i, b) ∷ [])
  | some _ ↦ outcomes
]

-- handleListing
unfoldable pub listed_one : Join → Presence → Presence
listed_one j s = announce_news (room_joined j.room) (record s {
  room = some j.room;
  has_joined = true;
  outcomes = settle_promise j.id true s.outcomes;
})

unfoldable pub listed_each : List Join → Presence → Presence
listed_each [] s = s
listed_each (j ∷ js) s = listed_each js (listed_one j s)

-- The event `_roomJoined`, which a listing emits.
unfoldable pub room_listed : Presence → Presence
room_listed s = listed_each s.joins (record s { joins = [] })

-- The timeout of a `joinRoom` that still listens rejects the promise.
unfoldable pub join_timed_out : ℕ → Presence → Presence
join_timed_out i s =
    if any (λ j. j.id == i) s.joins
    then record s { outcomes = settle_promise i false s.outcomes }
    else s

-- leaveRoom
unfoldable pub leave_room : Presence → Presence
leave_room s = elim s.room [
  | none ↦ s
  | some room ↦
      announce_news (room_left room)
        (record (send_message leave s) { room = none; has_joined = false; room_intent = none })
]
