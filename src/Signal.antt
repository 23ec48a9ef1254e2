-- ===== src/Signal.antt =====
-- ICE candidates and answers: `_handleICECandidate`, which sends a candidate over the data channel or
-- bundles it for the socket, and `_handleRemoteICECandidate`, `_handleRemoteICECandidates` and
-- `_handleAnswerSDP`, which take what other peers send. What signaling keeps of a connection is a
-- `Link` at the connection's address. Encryption is given, `none` where it throws; whoever awaits it
-- goes on when it ends, in any order.
pub mod Steps
pub mod Bundles
pub mod Timers
pub mod Delivery
pub mod Numbers
use ninja_vst3_plugin.Prelude.{
  ℕ, ◌+◌, ◌*◌, min, String, Bool, true, false, not, ◌&&◌, ◌||◌, Option, none, some, List, [], ◌∷◌,
  ◌++◌, str_eq, if◌then◌else◌,
}
use ninja_vst3_plugin.Peer.Types.{Kind, viewer, publisher, Sdk}
use ninja_vst3_plugin.Peer.State.{update}
use ninja_vst3_plugin.Peer.Lookup.{get_connection}

-- A candidate by a number; `is_blank` is an empty `candidate` line.
pub record Candidate : Type 0 where
  pub line : ℕ
  pub is_blank : Bool

-- The field `type`: "remote" goes to a publisher, "local" to a viewer.
pub data Heading : Type 0 where
  to_publisher to_viewer elsewhere : Heading

-- Candidates as they are sent; a sealed payload is a text and comes with its vector.
pub data Payload : Type 0 where
  plain : List Candidate → Payload
  sealed : ℕ → Payload

pub record CandidateMessage : Type 0 where
  pub uuid : String
  pub route : Heading
  pub payload : Payload
  pub session : Option String

-- What a handler that awaits `_encryptMessage` holds: the message's session and its candidates.
pub data Await : Type 0 where
  for_channel : Option String → Candidate → Await
  for_socket : Option String → List Candidate → Await

-- `timer` is the delay of the bundle's timer while it is armed, `awaits` the encryptions under way and
-- `socket_open` whether the socket is open; `on_channel` and `on_socket` are the messages sent, `added`
-- the candidates that `addIceCandidate` took and `remote` the descriptions set.
pub record Link : Type 0 where
  pub uuid : String
  pub kind : Kind
  pub session : Option String
  pub is_open : Bool
  pub sends : Bool
  pub socket_open : Bool
  pub bundle : List Candidate
  pub timer : Option ℕ
  pub delay : ℕ
  pub awaits : List Await
  pub on_channel : List CandidateMessage
  pub on_socket : List CandidateMessage
  pub takes : Candidate → Bool
  pub added : List Candidate
  pub settable : Bool
  pub remote : List ℕ
  pub errors : ℕ

-- connection.type === 'viewer' ? 'remote' : 'local'
abbrev pub route_of : Kind → Heading
route_of viewer = to_publisher
route_of publisher = to_viewer

-- A failed encryption falls back to the candidates as they are.
unfoldable pub payload_of : Bool → (List Candidate → Option ℕ) → List Candidate → Payload
payload_of protected encrypt candidates =
    if protected
    then elim (encrypt candidates) [ none ↦ plain candidates | some text ↦ sealed text ]
    else plain candidates

module _ (protected : Bool) (encrypt : List Candidate → Option ℕ) where
  abbrev pub message_of : Link → List Candidate → CandidateMessage
  message_of l candidates = record {
    uuid = l.uuid;
    route = route_of l.kind;
    payload = payload_of protected encrypt candidates;
    session = l.session;
  }

  abbrev pub arm_bundle : Link → Option ℕ
  arm_bundle l = elim l.timer [ none ↦ some l.delay | some d ↦ some d ]

  abbrev pub await : Await → Link → Link
  await w l = record l { awaits = l.awaits ++ (w ∷ []) }

  unfoldable pub add_to_bundle : Candidate → Link → Link
  add_to_bundle candidate l = record l {
    bundle = l.bundle ++ (candidate ∷ []);
    timer = arm_bundle l;
  }

  -- The channel's `send`, which throws on a channel that is not open.
  unfoldable pub send_on_channel : Option String → Candidate → Link → Link
  send_on_channel session candidate l =
      if l.is_open && l.sends
      then record l {
        on_channel =
            l.on_channel ++ (message_of (record l { session = session }) (candidate ∷ []) ∷ []);
      }
      else add_to_bundle candidate l

  -- `_sendMessageWS`: without an open socket the message is dropped.
  unfoldable pub send_on_socket : Option String → List Candidate → Link → Link
  send_on_socket session candidates l =
      if l.socket_open
      then record l {
        on_socket = l.on_socket ++ (message_of (record l { session = session }) candidates ∷ []);
      }
      else l

  -- `_handleICECandidate` up to its `await`; `none` is the end of gathering.
  unfoldable pub handle_ice_candidate : Option Candidate → Link → Link
  handle_ice_candidate none l = l
  handle_ice_candidate (some candidate) l =
      if l.is_open
      then (if protected
          then await (for_channel l.session candidate) l
          else send_on_channel l.session candidate l)
      else add_to_bundle candidate l

  -- The callback of the bundle's timer up to its `await`.
  unfoldable pub bundle_elapsed : Link → Link
  bundle_elapsed l =
      let emptied = record l { timer = none; bundle = []; delay = min 1000 (l.delay * 2) } in
      if protected
      then await (for_socket l.session l.bundle) emptied
      else send_on_socket l.session l.bundle emptied

  -- The rest of either, once its encryption has ended.
  unfoldable pub encrypted : Await → Link → Link
  encrypted (for_channel session candidate) l = send_on_channel session candidate l
  encrypted (for_socket session candidates) l = send_on_socket session candidates l

-- The connection that a message is for.
unfoldable pub receiver : String → Heading → Sdk → Option ℕ
receiver uuid to_publisher s = get_connection uuid (some publisher) s
receiver uuid to_viewer s = get_connection uuid (some viewer) s
receiver uuid elsewhere s = get_connection uuid none s

-- Both sessions are there and differ; an empty session is none.
abbrev pub is_mismatch : Option String → Option String → Bool
is_mismatch none mine = false
is_mismatch (some theirs) none = false
is_mismatch (some theirs) (some mine) = not (str_eq theirs mine)

abbrev pub add_candidate : Candidate → Link → Link
add_candidate candidate l =
    if l.takes candidate then record l { added = l.added ++ (candidate ∷ []) } else l

-- The loop over a bundle; an error is logged.
unfoldable pub add_candidates : List Candidate → Link → Link
add_candidates [] l = l
add_candidates (candidate ∷ rest) l =
    add_candidates rest (if candidate.is_blank then l else add_candidate candidate l)

module _ (protected : Bool) (decrypt : ℕ → Option (List Candidate)) where
  -- The decryption: without a password in effect a sealed text stays one, which has no candidate.
  unfoldable pub opened : Payload → Option (List Candidate)
  opened (plain candidates) = some candidates
  opened (sealed text) = if protected then decrypt text else some []

  -- `_handleRemoteICECandidates`
  unfoldable pub handle_remote_ice_candidates : CandidateMessage → Sdk → (ℕ → Link) → ℕ → Link
  handle_remote_ice_candidates m s links = elim (opened m.payload) [
    | none ↦ links
    | some candidates ↦ elim (receiver m.uuid m.route s) [
      | none ↦ links
      | some c ↦
          if is_mismatch m.session (links c).session
          then links
          else update links c (add_candidates candidates (links c))
    ]
  ]

-- `_handleRemoteICECandidate` for a candidate that is decrypted or was not encrypted.
unfoldable pub handle_remote_ice_candidate :
    String → Heading → Option String → Candidate → Sdk → (ℕ → Link) → ℕ → Link
handle_remote_ice_candidate uuid route session candidate s links = elim (receiver uuid route s) [
  | none ↦ links
  | some c ↦
      if is_mismatch session (links c).session
      then links
      else update links c (add_candidate candidate (links c))
]

-- What a handler ends in: `_findConnection` is defined nowhere, so calling it throws.
pub data Outcome : Type 0 where
  done : (ℕ → Link) → Outcome
  throws : Outcome

abbrev pub set_remote : ℕ → Link → Link
set_remote description l =
    if l.settable
    then record l { remote = l.remote ++ (description ∷ []) }
    else record l { errors = 1 + l.errors }

-- `_handleAnswerSDP`; a failed `setRemoteDescription` is told as an error.
unfoldable pub handle_answer_sdp : String → Option String → ℕ → Sdk → (ℕ → Link) → Outcome
handle_answer_sdp uuid session description s links = elim (get_connection uuid (some publisher) s) [
  | none ↦ throws
  | some c ↦
      if is_mismatch session (links c).session
      then done links
      else done (update links c (set_remote description (links c)))
]
