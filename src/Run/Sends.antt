-- ===== src/Run/Sends.antt =====
-- Messages change no connection's place.
use ninja_vst3_plugin.Prelude.{
  Option-cases, inl, inr, ℕ, String, Bool, true, false, Option, none, some, List, [], ◌∷◌, ◌||◌,
  ◌&&◌, ◌++◌, arith, if_rule,
}
use ninja_vst3_plugin.Prelude.Table.{get}
use ninja_vst3_plugin.Peer.Types.{Kind, Message, Pair, Sdk, bye}
use ninja_vst3_plugin.Peer.State.{has_open_channel}
use ninja_vst3_plugin.Presence.Stopping.{say_stopped, say_stopped_each}
use ninja_vst3_plugin.Peer.Lookup.{get_connections}
use ninja_vst3_plugin.Peer.Registry.{IsCalm, IsCalm-refl, IsCalm-trans}
use ninja_vst3_plugin.Data.Send.{
  Preference, only_publisher, only_viewer, any_side, all_sides, unset, unknown, Progress,
  try_connection, else_try, any_of_pair, send_to_pair, send_to_group, group, send_to_groups,
  send_to_each, send_filtered, send_named, over_channels, Sent, is_sent, can_fall_back,
  with_fallback, send_data_internal,
}
use ninja_vst3_plugin.Data.Target.{
  TargetOptions, normalize, is_some, allowed, preference_of, kind_of_type, of_stream, send_to_peers,
  send_to_stream, send_to_target, Target, everyone, peer, chosen, send_data,
}

try_connection-IsCalm :
    (m : Message) (c : Option ℕ) (p : Progress) → IsCalm p.sdk (try_connection m c p).1.sdk
unfolding try_connection
try_connection-IsCalm m none p = IsCalm-refl p.sdk
try_connection-IsCalm m (some c) p = ground arith

else_try-IsCalm :
    (m : Message) (c : Option ℕ) (s : Sdk) (tried : Bool × Progress)
    → IsCalm s tried.1.sdk
    → IsCalm s (else_try m c tried).sdk
else_try-IsCalm m c s (true, p) quiet = quiet
else_try-IsCalm m c s (false, p) quiet = IsCalm-trans quiet (try_connection-IsCalm m c p)

any_of_pair-IsCalm :
    (m : Message) (pair : Pair) (p : Progress) → IsCalm p.sdk (any_of_pair m pair p).sdk
any_of_pair-IsCalm m pair p =
    else_try-IsCalm m pair.viewer_side p.sdk (try_connection m pair.publisher_side p)
      (try_connection-IsCalm m pair.publisher_side p)

send_to_pair-IsCalm :
    (m : Message) (preference : Preference) (pair : Pair) (p : Progress)
    → IsCalm p.sdk (send_to_pair m preference pair p).sdk
unfolding send_to_pair
send_to_pair-IsCalm m only_publisher pair p = try_connection-IsCalm m pair.publisher_side p
send_to_pair-IsCalm m only_viewer pair p = try_connection-IsCalm m pair.viewer_side p
send_to_pair-IsCalm m any_side pair p = any_of_pair-IsCalm m pair p
send_to_pair-IsCalm m all_sides pair p =
    IsCalm-trans (try_connection-IsCalm m pair.publisher_side p)
      (try_connection-IsCalm m pair.viewer_side (try_connection m pair.publisher_side p).1)
send_to_pair-IsCalm m unset pair p = IsCalm-refl p.sdk
send_to_pair-IsCalm m unknown pair p = IsCalm-refl p.sdk

send_to_group-IsCalm :
    (m : Message) (preference : Preference) (pair : Pair) (p : Progress)
    → IsCalm p.sdk (send_to_group m preference pair p).sdk
unfolding send_to_group
send_to_group-IsCalm m only_publisher pair p = try_connection-IsCalm m pair.publisher_side p
send_to_group-IsCalm m only_viewer pair p = try_connection-IsCalm m pair.viewer_side p
send_to_group-IsCalm m any_side pair p = any_of_pair-IsCalm m pair p
send_to_group-IsCalm m all_sides pair p = IsCalm-refl p.sdk
send_to_group-IsCalm m unset pair p = any_of_pair-IsCalm m pair p
send_to_group-IsCalm m unknown pair p = IsCalm-refl p.sdk

send_to_groups-IsCalm :
    (m : Message) (preference : Preference) (groups : List (String × Pair)) (p : Progress)
    → IsCalm p.sdk (send_to_groups m preference groups p).sdk
unfolding send_to_groups
send_to_groups-IsCalm m preference [] p = IsCalm-refl p.sdk
send_to_groups-IsCalm m preference ((uuid, pair) ∷ rest) p =
    IsCalm-trans (send_to_group-IsCalm m preference pair p)
      (send_to_groups-IsCalm m preference rest (send_to_group m preference pair p))

send_to_each-IsCalm :
    (m : Message) (cs : List ℕ) (p : Progress) → IsCalm p.sdk (send_to_each m cs p).sdk
unfolding send_to_each
send_to_each-IsCalm m [] p = IsCalm-refl p.sdk
send_to_each-IsCalm m (c ∷ cs) p =
    IsCalm-trans (try_connection-IsCalm m (some c) p)
      (send_to_each-IsCalm m cs (try_connection m (some c) p).1)

send_filtered-IsCalm :
    (m : Message) (preference : Preference) (cs : List ℕ) (p : Progress)
    → IsCalm p.sdk (send_filtered m preference cs p).sdk
send_filtered-IsCalm m all_sides cs p = send_to_each-IsCalm m cs p
send_filtered-IsCalm m only_publisher cs p =
    send_to_groups-IsCalm m only_publisher (group cs p.sdk []) p
send_filtered-IsCalm m only_viewer cs p = send_to_groups-IsCalm m only_viewer (group cs p.sdk []) p
send_filtered-IsCalm m any_side cs p = send_to_groups-IsCalm m any_side (group cs p.sdk []) p
send_filtered-IsCalm m unset cs p = send_to_groups-IsCalm m unset (group cs p.sdk []) p
send_filtered-IsCalm m unknown cs p = send_to_groups-IsCalm m unknown (group cs p.sdk []) p

send_named-IsCalm :
    (m : Message) (preference : Preference) (pair : Option Pair) (p : Progress)
    → IsCalm p.sdk (send_named m preference pair p).sdk
send_named-IsCalm m preference none p = IsCalm-refl p.sdk
send_named-IsCalm m preference (some pair) p = send_to_pair-IsCalm m preference pair p

over_channels-IsCalm :
    (m : Message) (uuid : Option String) (type : Option Kind) (preference : Preference)
    (p : Progress)
    → IsCalm p.sdk (over_channels m uuid type preference p).sdk
unfolding over_channels
over_channels-IsCalm m (some uuid) none preference p =
    send_named-IsCalm m preference (get uuid p.sdk.connections) p
over_channels-IsCalm m (some uuid) (some kind) preference p =
    send_filtered-IsCalm m preference (get_connections (some uuid) (some kind) none p.sdk) p
over_channels-IsCalm m none type preference p =
    send_filtered-IsCalm m preference (get_connections none type none p.sdk) p

with_fallback-IsCalm :
    (uuid : Option String) (allow : Bool) (s : Sdk) (p : Progress)
    → IsCalm s p.sdk
    → IsCalm s (with_fallback uuid allow p).sdk
with_fallback-IsCalm uuid allow s p quiet =
    if_rule (λ (r : Sent). IsCalm s r.sdk) (is_sent p) (λ _. quiet)
      (λ _.
        if_rule (λ (r : Sent). IsCalm s r.sdk) (allow && can_fall_back p.sdk) (λ _. quiet)
          (λ _. quiet))

send_data_internal-IsCalm :
    (m : Message) (uuid : Option String) (type : Option Kind) (preference : Preference)
    (allow : Bool) (s : Sdk)
    → IsCalm s (send_data_internal m uuid type preference allow s).sdk
unfolding send_data_internal
send_data_internal-IsCalm m uuid type preference allow s =
    let p : Progress = record { done = []; sdk = s } in
    with_fallback-IsCalm uuid allow s (over_channels m uuid type preference p)
      (over_channels-IsCalm m uuid type preference p)

send_to_peers-IsCalm :
    (m : Message) (preference : Preference) (allow : Bool) (groups : List (String × Pair))
    (r : Sent)
    → IsCalm r.sdk (send_to_peers m preference allow groups r).sdk
unfolding send_to_peers
send_to_peers-IsCalm m preference allow [] r = IsCalm-refl r.sdk
send_to_peers-IsCalm m preference allow ((uuid, pair) ∷ rest) r =
    let one = send_data_internal m (some uuid) none preference allow r.sdk in
    IsCalm-trans (send_data_internal-IsCalm m (some uuid) none preference allow r.sdk) (
      send_to_peers-IsCalm m preference allow rest (record {
        sent = r.sent || one.sent;
        fallbacks = r.fallbacks ++ one.fallbacks;
        sdk = one.sdk;
      }))

send_to_target-IsCalm :
    (m : Message) (t : TargetOptions) (s : Sdk) → IsCalm s (send_to_target m t s).sdk
unfolding send_to_target send_to_stream
send_to_target-IsCalm m t s =
    let preference = preference_of t.preference in
    let allow = allowed t.allow_fallback in
    elim (Option-cases t.uuid) [
      | inl e ↦ rw e (elim (Option-cases t.stream_id) [
        | inl e2 ↦ rw e2 (
            if_rule (λ (r : Sent). IsCalm s r.sdk) (is_some t.type)
              (λ _. send_data_internal-IsCalm m none (kind_of_type t.type) preference allow s)
              (λ _. send_data_internal-IsCalm m none none preference allow s))
        | inr (stream_id, e2) ↦ rw e2 (
            send_to_peers-IsCalm m preference allow (group (of_stream stream_id t.type s) s [])
              (record { sent = false; fallbacks = []; sdk = s }))
      ])
      | inr (uuid, e) ↦ rw e (
          if_rule (λ (r : Sent). IsCalm s r.sdk) (is_some t.type || is_some t.stream_id)
            (λ _. send_data_internal-IsCalm m (some uuid) (kind_of_type t.type) preference allow s)
            (λ _. send_data_internal-IsCalm m (some uuid) none preference allow s))
    ]

-- No message that is sent changes which connections are listed, or where any connection stands.
pub send_data-IsCalm :
    (m : Message) (target : Target) (s : Sdk) → IsCalm s (send_data m target s).sdk
unfolding send_data
send_data-IsCalm m everyone s = send_data_internal-IsCalm m none none any_side false s
send_data-IsCalm m (peer uuid) s = send_data_internal-IsCalm m (some uuid) none any_side false s
send_data-IsCalm m (chosen t) s = send_to_target-IsCalm m (normalize t) s

say_stopped-IsCalm : (uuid : String) (o : Option ℕ) (s : Sdk) → IsCalm s (say_stopped uuid o s)
say_stopped-IsCalm uuid none s = IsCalm-refl s
say_stopped-IsCalm uuid (some c) s =
    if_rule (IsCalm s) (has_open_channel (s.objects c))
      (λ _. send_data_internal-IsCalm bye (some uuid) none only_publisher false s)
      (λ _. IsCalm-refl s)

-- The byes of `stopPublishing`.
pub say_stopped_each-IsCalm :
    (entries : List (String × Pair)) (s : Sdk) → IsCalm s (say_stopped_each entries s)
unfolding say_stopped_each
say_stopped_each-IsCalm [] s = IsCalm-refl s
say_stopped_each-IsCalm ((uuid, pair) ∷ rest) s =
    IsCalm-trans (say_stopped-IsCalm uuid pair.publisher_side s)
      (say_stopped_each-IsCalm rest (say_stopped uuid pair.publisher_side s))
