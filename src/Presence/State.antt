-- ===== src/Presence/State.antt =====
-- The state of rooms and publishing: the fields of the instance that they keep, over the connections
-- (`Peer.Types.Sdk`) and the monitors of the published tracks (`Mute.State.Monitors`), whose
-- `publishing` is `state.publishing`.
use ninja_vst3_plugin.Prelude.{
  ℕ, String, Bool, false, Option, none, some, List, [], ◌∷◌, ◌++◌, if◌then◌else◌,
}
use ninja_vst3_plugin.Peer.Types.{Sdk}
use ninja_vst3_plugin.Mute.State.{Monitors}
use ninja_vst3_plugin.Names.{Password}

-- _connectionIntent.room
pub record RoomIntent : Type 0 where
  pub room : String
  pub password : Password
  pub claim : Bool

-- The options of `joinRoom`; `undefined` is a password that is not given.
pub record JoinOptions : Type 0 where
  pub room : Option String
  pub password : Password
  pub claim : Bool

-- The options of `publish` and `announce` that matter here.
pub record PublishOptions : Type 0 where
  pub stream_id : Option String
  pub room : Option String
  pub password : Password

-- `_connectionIntent.publishing`, which is there while it is active; media streams are numbers.
pub record Publication : Type 0 where
  pub data_only : Bool
  pub stream : Option ℕ
  pub stream_id : String
  pub options : PublishOptions

-- A listener of `_roomJoined`; `id` names the promise of its `joinRoom`.
pub record Join : Type 0 where
  pub id : ℕ
  pub room : String

pub data Request : Type 0 where
  joinroom : (roomid : String) (claim : Bool) → Request
  leave : Request
  seed : (stream_id : String) → Request
  offer :
      (uuid : Option String) (session : String) (stream_id : Option String) (description : ℕ)
      (is_sealed : Bool)
      → Request

pub data News : Type 0 where
  room_joined : String → News
  room_left : String → News
  started : (stream_id hashed : String) (data_only : Bool) → News
  stopped : News

pub data Failure : Type 0 where
  not_connected room_required stream_required already_publishing : Failure

-- What a handler that answers a viewer holds at its `await`: of the hash that it asked for and its
-- key, of the new connection, of the offer, of the hash, of the encryption. Where the offer is for the
-- instance's own UUID there is no `target`.
pub data Answer : Type 0 where
  hashing : (uuid stream_id : String) → Option (String × String) → Answer
  connecting : (uuid : String) → Answer
  joining : (uuid : String) → Option String → Answer
  offering : (target : Option String) (session : String) → Answer
  naming : (target : Option String) (session : String) (description : ℕ) (hash : String) → Answer
  sealing :
      (uuid : Option String) (session : String) (stream_id : Option String) (description : ℕ)
      → Answer

-- `outcomes` are the promises of `joinRoom` that are settled, true where resolved; `flushes` counts the
-- calls of `stopPublishing` whose byes are not flushed yet; `answers` are the handlers that wait.
-- `hash` is `_passwordHash` and `hash_key` is `_passwordHashKey`; `requests` are those that the socket
-- was given.
pub record Presence : Type 0 where
  pub sdk : Sdk
  pub monitors : Monitors
  pub room_option : Option String
  pub pending_stream_id : Option String
  pub password : Password
  pub salt : String
  pub hash : Option String
  pub hash_key : Option String
  pub uuid : Option String
  pub room : Option String
  pub has_joined : Bool
  pub stream_id : Option String
  pub local_stream : Option ℕ
  pub room_intent : Option RoomIntent
  pub publication : Option Publication
  pub joins : List Join
  pub next_join : ℕ
  pub outcomes : List (ℕ × Bool)
  pub flushes : ℕ
  pub answers : List Answer
  pub requests : List Request
  pub news : List News

-- state.publishing
abbrev pub is_publishing : Presence → Bool
is_publishing s = s.monitors.publishing

abbrev pub set_publishing : Bool → Presence → Presence
set_publishing b s = record s { monitors = record s.monitors { publishing = b } }

abbrev pub is_open : Option Bool → Bool
is_open none = false
is_open (some b) = b

-- `_sendMessageWS`: without an open socket the message is dropped.
unfoldable pub send_message : Request → Presence → Presence
send_message m s =
    if is_open s.sdk.signaling then record s { requests = s.requests ++ (m ∷ []) } else s

abbrev pub announce_news : News → Presence → Presence
announce_news n s = record s { news = s.news ++ (n ∷ []) }
