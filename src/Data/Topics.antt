-- ===== src/Data/Topics.antt =====
-- `subscribe`, `unsubscribe`, `getSubscriptions`, `getPeerSubscriptions`, `publishToChannel`,
-- `request`, `onRequest` and `_handleDataChannelMessage`: what this side and its peers are
-- subscribed to, and requests that wait for their responses. Request IDs are distinct, so a request's
-- timeout is named by its ID; payloads are numbers. What the messages themselves go through is
-- `Data.Target`.
pub mod Subscribed
pub mod Settled
use ninja_vst3_plugin.Prelude.{
  ℕ, String, Bool, true, false, Option, none, some, List, [], ◌∷◌, ◌++◌, if◌then◌else◌,
}
use ninja_vst3_plugin.Prelude.Table.{Table, get, set, delete}
use ninja_vst3_plugin.Prelude.Members.{contains, add_member, drop_member, add_members, drop_members}

-- A response's payload, and its truthy `error` if it has one.
pub record Reply : Type 0 where
  pub payload : ℕ
  pub failure : Option String

-- How a promise of `request` ends.
pub data Settlement : Type 0 where
  resolved : ℕ → Settlement
  rejected : String → Settlement
  timed_out : Settlement
  not_sent : Settlement

-- What `_handleDataChannelMessage` is given: `topics` are the channels named, one or several or
-- none; `malformed` is a request whose type, or a response whose ID, is not a text.
pub data Incoming : Type 0 where
  subscribed : List String → Incoming
  unsubscribed : List String → Incoming
  channel_message : String → ℕ → Incoming
  requested : String → String → ℕ → Incoming
  responded : String → Reply → Incoming
  malformed : Incoming
  other : ℕ → Incoming

pub data Notice : Type 0 where
  peer_subscribed : String → List String → List String → Notice
  peer_unsubscribed : String → List String → List String → Notice
  message_on : String → ℕ → String → Notice
  data_received : ℕ → String → Notice
  data_recieved : ℕ → String → Notice

-- A handler's call that is due: its number, the request's ID and payload, and the peer that waits.
pub record Due : Type 0 where
  pub handler : ℕ
  pub request_id : String
  pub payload : ℕ
  pub peer : String

-- `armed` are the requests whose timeout runs, `settled` the promises that have ended, in order.
-- `pending` holds for each request its timeout in milliseconds.
pub record Messaging : Type 0 where
  pub subscriptions : List String
  pub peer_subscriptions : Table (List String)
  pub handlers : Table ℕ
  pub pending : Table ℕ
  pub armed : List String
  pub settled : List (String × Settlement)
  pub due : List Due
  pub notices : List Notice

-- The loop of `subscribe` over its channels.
unfoldable pub subscribe : List String → Messaging → Messaging
subscribe topics s = record s { subscriptions = add_members topics s.subscriptions }

unfoldable pub unsubscribe : List String → Messaging → Messaging
unsubscribe topics s = record s { subscriptions = drop_members topics s.subscriptions }

abbrev pub listed : Option (List String) → List String
listed none = []
listed (some l) = l

unfoldable pub get_peer_subscriptions : String → Messaging → List String
get_peer_subscriptions uuid s = listed (get uuid s.peer_subscriptions)

unfoldable pub on_request : String → ℕ → Messaging → Messaging
on_request request_type handler s = record s { handlers = set request_type handler s.handlers }

-- clearTimeout and the settling of a promise that waits.
abbrev pub settle : String → Settlement → Messaging → Messaging
settle id how s = record s { settled = s.settled ++ ((id, how) ∷ []) }

-- `request`; `success` is the result of `sendData`.
unfoldable pub request : String → ℕ → Bool → Messaging → Messaging
request id timeout success s =
    let waiting = record s { armed = add_member id s.armed; pending = set id timeout s.pending } in
    if success
    then waiting
    else settle id not_sent (record waiting {
      armed = drop_member id waiting.armed;
      pending = delete id waiting.pending;
    })

-- The timeout's callback, which runs only while it is armed.
unfoldable pub request_timed_out : String → Messaging → Messaging
request_timed_out id s =
    if contains id s.armed
    then settle id timed_out
        (record s { armed = drop_member id s.armed; pending = delete id s.pending })
    else s

abbrev pub settlement_of : Reply → Settlement
settlement_of reply = elim reply.failure [
  | none ↦ resolved reply.payload
  | some failure ↦ rejected failure
]

abbrev pub notify : Notice → Messaging → Messaging
notify n s = record s { notices = s.notices ++ (n ∷ []) }

-- `_handleDataChannelMessage`, for a message of the peer `uuid`.
unfoldable pub handle_message : Incoming → String → Messaging → Messaging
handle_message (subscribed topics) uuid s =
    let subs = add_members topics (listed (get uuid s.peer_subscriptions)) in
    notify (peer_subscribed uuid topics subs)
      (record s { peer_subscriptions = set uuid subs s.peer_subscriptions })
handle_message (unsubscribed topics) uuid s =
    let subs = drop_members topics (listed (get uuid s.peer_subscriptions)) in
    notify (peer_unsubscribed uuid topics subs)
      (record s { peer_subscriptions = set uuid subs s.peer_subscriptions })
handle_message (channel_message topic payload) uuid s =
    if contains topic s.subscriptions then notify (message_on topic payload uuid) s else s
handle_message (requested request_type id payload) uuid s = elim (get request_type s.handlers) [
  | none ↦ s
  | some handler ↦ record s {
    due =
        s.due
        ++ (record { handler = handler; request_id = id; payload = payload; peer = uuid } ∷ []);
  }
]
handle_message (responded id reply) uuid s = elim (get id s.pending) [
  | none ↦ s
  | some timeout ↦ record (settle id (settlement_of reply) s) {
    armed = drop_member id s.armed;
    pending = delete id s.pending;
  }
]
handle_message malformed uuid s = s
handle_message (other payload) uuid s =
    notify (data_recieved payload uuid) (notify (data_received payload uuid) s)
