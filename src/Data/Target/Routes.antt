-- ===== src/Data/Target/Routes.antt =====
-- What becomes of a target.
use ninja_vst3_plugin.Prelude.{
  ℕ, ◌≡◌, refl, ap, ◌∙◌, String, Bool, true, none, some, [], ◌∷◌, arith,
}
use ninja_vst3_plugin.Prelude.Table.{get}
use ninja_vst3_plugin.Peer.Types.{Message, Pair, Sdk}
use ninja_vst3_plugin.Peer.State.{send}
use ninja_vst3_plugin.Data.Send.{any_side, Sent, send_data_internal, group}
use ninja_vst3_plugin.Data.Send.Delivery.{
  chosen as chosen_side, is_usable, outcome, send_data_internal_named,
}
use ninja_vst3_plugin.Data.Target.{
  Route, TargetOptions, chosen, normalize, of_stream, send_to_peers, send_to_stream, send_to_target,
  send_data,
}

-- Normalizing a target a second time changes nothing, so the aliases leave no order to mind.
pub normalize_idem : (t : TargetOptions) → normalize (normalize t) ≡ normalize t
unfolding normalize
normalize_idem t = ground arith

-- { streamID, type: 'viewer', allowFallback }
abbrev pub viewer_of_stream : String → Bool → TargetOptions
viewer_of_stream stream_id allow = record {
  uuid = none;
  upper_uuid = none;
  type = some Route.viewer;
  stream_id = some stream_id;
  preference = none;
  channel = none;
  prefer = none;
  allow_fallback = some allow;
}

-- The call for a stream that is found at one peer is the call that names this peer and no direction.
one_peer :
    (m : Message) (s : Sdk) (stream_id uuid : String) (found : Pair) (allow : Bool)
    → group (of_stream stream_id (some Route.viewer) s) s [] ≡ (uuid, found) ∷ []
    → ((send_data m (chosen (viewer_of_stream stream_id allow)) s).sent
        ≡ (send_data_internal m (some uuid) none any_side allow s).sent)
      × ((send_data m (chosen (viewer_of_stream stream_id allow)) s).sdk
          ≡ (send_data_internal m (some uuid) none any_side allow s).sdk)
unfolding send_data send_to_target normalize send_to_stream send_to_peers
one_peer m s stream_id uuid found allow g = rw g (refl, refl)

-- A target that names a stream and the viewer direction: where the stream is found at one peer and
-- the publisher direction to that peer is usable, the message goes over the publisher direction.
pub stream_type_ignored :
    (m : Message) (s : Sdk) (stream_id uuid : String) (found pair : Pair) (c : ℕ) (allow : Bool)
    → group (of_stream stream_id (some Route.viewer) s) s [] ≡ (uuid, found) ∷ []
    → get uuid s.connections ≡ some pair
    → pair.publisher_side ≡ some c
    → is_usable s (some c) ≡ true
    → ((send_data m (chosen (viewer_of_stream stream_id allow)) s).sent ≡ true)
      × ((send_data m (chosen (viewer_of_stream stream_id allow)) s).sdk ≡ send c m s)
stream_type_ignored m s stream_id uuid found pair c allow g e p usable =
    let named = send_data_internal_named m uuid pair any_side allow s e (λ x. cc) in
    let first : chosen_side any_side pair s ≡ some c = rw p (rw usable) in
    let to_c = named ∙ ap (outcome m uuid allow s) first in
    let (sent, sdk) = one_peer m s stream_id uuid found allow g in
    (sent ∙ ap (λ (r : Sent). r.sent) to_c, sdk ∙ ap (λ (r : Sent). r.sdk) to_c)
