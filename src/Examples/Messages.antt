-- ===== src/Examples/Messages.antt =====
-- Messages, requests, subscriptions and media settings.
use ninja_vst3_plugin.Prelude.Table.{set, get, get}
use ninja_vst3_plugin.Peer.Lookup.{matching_side, matching, get_connections}
use ninja_vst3_plugin.Data.Target.{of_stream, TargetOptions, Target, send_data}
use ninja_vst3_plugin.Data.Send.{group, Preference, send_data_internal}
use ninja_vst3_plugin.Media.Codecs.{classify, Codec, build_codec_preference_list}
use ninja_vst3_plugin.Prelude.{
  ℕ, String, Bool, true, false, Option, none, some, List, [], ◌∷◌, ◌≡◌, refl, arith,
}
use ninja_vst3_plugin.Prelude.Members.{contains}
use ninja_vst3_plugin.Peer.Types.{Message}
use ninja_vst3_plugin.Data.Send.Delivery.{outcome, chosen, send_data_internal_named}
use ninja_vst3_plugin.Data.Send.Once.{AtMostOnce, send_data_internal_once}
use ninja_vst3_plugin.Data.Target.Routes.{viewer_of_stream, stream_type_ignored}
use ninja_vst3_plugin.Data.Topics.{Incoming, Messaging, Reply}
use ninja_vst3_plugin.Data.Topics.Settled.{
  times_made, settlements, Happening, happen_all, promised, promised-happen_all,
}
use ninja_vst3_plugin.Media.Codecs.Preferred.{starts_requested, build_codec_preference_list_lem}
use ninja_vst3_plugin.Media.Merge.{Change, SectionUpdate, merge_section}
use ninja_vst3_plugin.Media.Merge.Sections.{final_setting, setting, setting-merge_section}
use ninja_vst3_plugin.Examples.Samples.{bob, connected}

abbrev quiet : Messaging
quiet = record {
  subscriptions = [];
  peer_subscriptions = [];
  handlers = [];
  pending = [];
  armed = [];
  settled = [];
  due = [];
  notices = [];
}

abbrev good : Reply
good = record { payload = 8; failure = none }

abbrev blank : TargetOptions
blank = viewer_of_stream "cam" false

abbrev codec_of : String → Bool → ℕ → Option ℕ → Codec
codec_of mime is_rtx payload_type apt = record {
  mime = mime;
  is_rtx = is_rtx;
  payload_type = some payload_type;
  apt = apt;
}

abbrev offered : List Codec
offered =
    codec_of "video/vp8" false 96 none
    ∷ codec_of "video/rtx" true 97 (some 96)
    ∷ codec_of "video/h264" false 98 none
    ∷ codec_of "video/rtx" true 99 (some 98)
    ∷ []

abbrev preferred : List Codec
preferred =
    codec_of "video/h264" false 98 none
    ∷ codec_of "video/rtx" true 99 (some 98)
    ∷ codec_of "video/vp8" false 96 none
    ∷ []

send_data_internal_once_example :
    AtMostOnce
      (Message.pipe 5)
      connected
      0
      (send_data_internal (Message.pipe 5) none none Preference.all_sides false connected)
send_data_internal_once_example =
    send_data_internal_once (Message.pipe 5) none none Preference.all_sides false connected 0

send_data_internal_named_example :
    send_data_internal (Message.pipe 5) (some "bob") none Preference.any_side false connected
    ≡ outcome (Message.pipe 5) "bob" false connected (chosen Preference.any_side bob connected)
unfolding get
send_data_internal_named_example =
    send_data_internal_named (Message.pipe 5) "bob" bob Preference.any_side false connected refl
      (ground arith)

stream_type_ignored_example :
    (send_data (Message.pipe 5) (Target.chosen (viewer_of_stream "cam" false)) connected).sent
    ≡ true
unfolding group of_stream get_connections matching matching_side set get
stream_type_ignored_example =
    (stream_type_ignored (Message.pipe 5) connected "cam" "bob"
      (record { viewer_side = some 0; publisher_side = none }) bob 1 false refl refl refl refl).0

promised-happen_all_example :
    promised "q" (
      happen_all
        (Happening.made "q" 5000 true
          ∷ Happening.heard (Incoming.responded "q" good) "bob"
          ∷ Happening.late "q"
          ∷ [])
        quiet)
    ≡ 1
unfolding times_made contains get settlements
promised-happen_all_example =
    promised-happen_all "q"
      (Happening.made "q" 5000 true
        ∷ Happening.heard (Incoming.responded "q" good) "bob"
        ∷ Happening.late "q"
        ∷ [])
      quiet refl (ground arith)

build_codec_preference_list_lem_example : starts_requested "video/h264" preferred ≡ true
unfolding build_codec_preference_list classify
build_codec_preference_list_lem_example =
    (build_codec_preference_list_lem offered preferred "video/h264" refl).0

setting-merge_section_example :
    setting "bitrate" (
      merge_section
        (some (("bitrate", 3) ∷ ("width", 9) ∷ []))
        (SectionUpdate.changes (("bitrate", Change.null) ∷ [])))
    ≡ none
unfolding final_setting
setting-merge_section_example =
    setting-merge_section "bitrate" (some (("bitrate", 3) ∷ ("width", 9) ∷ []))
      (SectionUpdate.changes (("bitrate", Change.null) ∷ []))
