-- ===== src/Examples/Rooms.antt =====
-- Names, rooms and publishing.
use ninja_vst3_plugin.Presence.{
  room_of, join_room, restore_room, room_listed, join_timed_out, outcome_of, request_join,
  join_room, hash_stream_id, announced,
}
use ninja_vst3_plugin.Presence.Stopping.{stop_publishing, stop_publishing_flushed, flush_elapsed}
use ninja_vst3_plugin.Names.{
  sanitize_password, trim_start, trim_end, sanitize_room_name, is_word, is_space,
  effective_password, collapse, clean, Password, text, undefined, is_empty, append,
  sanitize_stream_id,
}
use ninja_vst3_plugin.Prelude.{ℕ, inr, String, true, false, none, some, [], ◌≡◌, refl, arith}
use ninja_vst3_plugin.Peer.Types.{viewer, PeerState, IceState, publisher}
use ninja_vst3_plugin.Presence.Requests.{handle_play_request, Resumption}
use ninja_vst3_plugin.Presence.Requests.Offers.{handle_play_request-offer, resumed_four_times}
use ninja_vst3_plugin.Peer.Registry.{listed}
use ninja_vst3_plugin.Names.Clean.{IsName, sanitize_stream_id-IsName}
use ninja_vst3_plugin.Presence.State.{
  send_message, Presence, JoinOptions, PublishOptions, is_publishing,
}
use ninja_vst3_plugin.Presence.Rooms.{join_room-restore_room}
use ninja_vst3_plugin.Presence.Listings.{room_listed-join_timed_out}
use ninja_vst3_plugin.Presence.Publishing.{
  hash_stream_id-kept, announced-seed, announced-flush_elapsed,
}
use ninja_vst3_plugin.Presence.Stops.{stop_publishing_flushed-listed}
use ninja_vst3_plugin.Examples.Samples.{connected, peer_in}
use ninja_vst3_plugin.Examples.Tracks.{idle}

abbrev generated : String
generated = "abc123"

generated-IsName : IsName 64 generated
unfolding ninja_vst3_plugin.Names.is_word
generated-IsName = record {
  word = (refl, (refl, (refl, (refl, (refl, (refl, tt))))));
  full = refl;
  short = omega arith;
}

-- A codec of texts that need none, and a digest.
abbrev as_it_is : String → String
as_it_is t = t

abbrev digits : String → ℕ → String
digits t n = "d1"

sanitize_stream_id-IsName_example : IsName 64 (sanitize_stream_id generated (some " my cam "))
sanitize_stream_id-IsName_example =
    (sanitize_stream_id-IsName generated (some " my cam ") generated-IsName).0

abbrev ready : Presence
ready = record {
  sdk = connected;
  monitors = record (idle true) { publishing = false };
  room_option = none;
  pending_stream_id = none;
  password = text "someEncryptionKey123";
  salt = "vdo.ninja";
  hash = none;
  hash_key = none;
  uuid = none;
  room = none;
  has_joined = false;
  stream_id = none;
  local_stream = none;
  room_intent = none;
  publication = none;
  joins = [];
  next_join = 0;
  outcomes = [];
  flushes = 0;
  answers = [];
  requests = [];
  news = [];
}

abbrev my_room : JoinOptions
my_room = record { room = some "my room"; password = text "secret"; claim = true }

abbrev asked_for : Presence
asked_for = (join_room as_it_is as_it_is digits my_room ready).1

-- The same instance after its socket was lost and opened again.
abbrev reopened : Presence
reopened = record ready { room_intent = asked_for.room_intent }

join_room-restore_room_example : (restore_room as_it_is as_it_is digits reopened).0 ≡ none
unfolding room_of sanitize_room_name trim_end trim_start is_space clean collapse is_word
    sanitize_password
join_room-restore_room_example =
    (join_room-restore_room as_it_is as_it_is digits (λ t. refl) refl my_room
      (text "someEncryptionKey123") "my_room" ready reopened refl refl refl refl refl refl refl refl
      refl refl).1

room_listed-join_timed_out_example :
    outcome_of 0 (room_listed (join_timed_out 0 asked_for)).outcomes ≡ some false
unfolding room_of sanitize_room_name trim_end trim_start is_space clean collapse is_word
    request_join outcome_of join_room send_message
room_listed-join_timed_out_example =
    (room_listed-join_timed_out [] (record { id = 0; room = "my_room" }) asked_for refl refl).1

hash_stream_id-kept_example :
    (hash_stream_id as_it_is as_it_is digits "cam"
      (record ((hash_stream_id as_it_is as_it_is digits "mic" ready).1) {
        password = text "other";
      })).0
    ≡ append "cam" "d1"
unfolding effective_password trim_end trim_start is_space
hash_stream_id-kept_example =
    hash_stream_id-kept as_it_is as_it_is digits "mic" "cam" (text "other") "someEncryptionKey123"
      "other" ready refl refl refl

abbrev plain : PublishOptions
plain = record { stream_id = some "my cam"; room = none; password = undefined }

announced-seed_example :
    is_publishing (announced as_it_is as_it_is digits generated plain ready) ≡ true
unfolding effective_password trim_end trim_start is_space
announced-seed_example =
    (announced-seed as_it_is as_it_is digits generated "someEncryptionKey123" plain ready
      (λ t n. refl) generated-IsName refl refl refl).3

abbrev on_air : Presence
on_air = record ready { stream_id = some "cam"; monitors = idle true }

announced-flush_elapsed_example :
    is_publishing (
      flush_elapsed []
        (announced as_it_is as_it_is digits generated plain (stop_publishing on_air)))
    ≡ false
announced-flush_elapsed_example =
    (announced-flush_elapsed as_it_is as_it_is digits generated plain [] on_air refl).1

stop_publishing_flushed-listed_example :
    listed "bob" viewer (stop_publishing_flushed [] ready).sdk.connections
    ≡ listed "bob" viewer ready.sdk.connections
stop_publishing_flushed-listed_example = (stop_publishing_flushed-listed [] ready "bob").1

-- The hash was made for an earlier request.
abbrev on_air_again : Presence
on_air_again = record on_air {
  hash = some "d1";
  hash_key = some (append "someEncryptionKey123" (append ":" "vdo.ninja"));
}

abbrev reply : Resumption
reply = record {
  pc = peer_in PeerState.connected IceState.connected;
  channel = record { is_open = false; sends = true; outbox = [] };
  session = "s1";
  description = some 4;
}

handle_play_request-offer_example :
    listed "ann" publisher
      (resumed_four_times digits
        (λ n. some n)
        0
        reply
        (handle_play_request digits
          (λ n. some n)
          "ann"
          (append "cam" "d1")
          on_air_again)).sdk.connections
    ≡ some 2
unfolding effective_password trim_end trim_start is_space
handle_play_request-offer_example =
    (handle_play_request-offer digits (λ n. some n) "ann" "cam" "someEncryptionKey123" 4 4 reply
      on_air_again refl (λ t n. refl) refl (inr (inr refl)) refl refl refl refl refl).0
