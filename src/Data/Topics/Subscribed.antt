-- ===== src/Data/Topics/Subscribed.antt =====
-- Who is subscribed to what, and who hears what.
use ninja_vst3_plugin.Prelude.{
  ℕ, ◌≡◌, ◌≢◌, String, Bool, true, false, not, ◌&&◌, ◌||◌, List, [], ◌∷◌, ◌++◌, arith, eq_iff,
}
use mathlib.Core.List.{append-nil}
use ninja_vst3_plugin.Prelude.Table.{get, get-set}
use ninja_vst3_plugin.Prelude.Members.{
  contains, add_members, drop_members, contains-add_members, contains-drop_members,
}
use ninja_vst3_plugin.Data.Topics.{
  subscribed, unsubscribed, channel_message, Notice, message_on, Messaging, listed, subscribe,
  unsubscribe, get_peer_subscriptions, handle_message,
}

-- After a peer's subscription it is recorded for exactly the channels named and those before; after
-- an end of subscription for those before that are not named. The other peers' are as they were.
pub handle_message-subscriptions :
    (topics : List String) (topic uuid peer : String) (s : Messaging)
    → (contains topic (get_peer_subscriptions uuid (handle_message (subscribed topics) uuid s))
        ≡ (contains topic topics || contains topic (get_peer_subscriptions uuid s)))
      × (contains topic (get_peer_subscriptions uuid (handle_message (unsubscribed topics) uuid s))
          ≡ (not (contains topic topics) && contains topic (get_peer_subscriptions uuid s)))
      × (uuid ≢ peer
          → (get_peer_subscriptions peer (handle_message (subscribed topics) uuid s)
              ≡ get_peer_subscriptions peer s)
            × (get_peer_subscriptions peer (handle_message (unsubscribed topics) uuid s)
                ≡ get_peer_subscriptions peer s))
unfolding get_peer_subscriptions handle_message
handle_message-subscriptions topics topic uuid peer s =
    let before = listed (get uuid s.peer_subscriptions) in
    let added = add_members topics before in
    let left = drop_members topics before in
    (
      ground (
        arith,
        get-set uuid uuid added s.peer_subscriptions,
        eq_iff uuid uuid,
        contains-add_members topics topic before,
      ),
      ground (
        arith,
        get-set uuid uuid left s.peer_subscriptions,
        eq_iff uuid uuid,
        contains-drop_members topics topic before,
      ),
      λ ne. (
        ground (arith, get-set uuid peer added s.peer_subscriptions, eq_iff uuid peer),
        ground (arith, get-set uuid peer left s.peer_subscriptions, eq_iff uuid peer),
      ),
    )

-- After a peer's subscription it is recorded for exactly the channels named and those before; after
-- an end of subscription for those before that are not named.
pub get_peer_subscriptions-handle_message :
    (topics : List String) (topic uuid : String) (s : Messaging)
    → (contains topic (get_peer_subscriptions uuid (handle_message (subscribed topics) uuid s))
        ≡ (contains topic topics || contains topic (get_peer_subscriptions uuid s)))
      × (contains topic (get_peer_subscriptions uuid (handle_message (unsubscribed topics) uuid s))
          ≡ (not (contains topic topics) && contains topic (get_peer_subscriptions uuid s)))
get_peer_subscriptions-handle_message topics topic uuid s =
    let (after, gone, _) = handle_message-subscriptions topics topic uuid uuid s in (after, gone)

-- The messages of one peer about subscriptions leave those of another peer as they were.
pub get_peer_subscriptions_of_others :
    (topics : List String) (uuid peer : String) (s : Messaging)
    → uuid ≢ peer
    → (get_peer_subscriptions peer (handle_message (subscribed topics) uuid s)
        ≡ get_peer_subscriptions peer s)
      × (get_peer_subscriptions peer (handle_message (unsubscribed topics) uuid s)
          ≡ get_peer_subscriptions peer s)
get_peer_subscriptions_of_others topics uuid peer s ne =
    let (_, _, others) = handle_message-subscriptions topics "" uuid peer s in others ne

abbrev pub heard : Bool → String → ℕ → String → List Notice
heard true topic payload uuid = message_on topic payload uuid ∷ []
heard false topic payload uuid = []

-- A message on a channel is told to the application exactly if it subscribed to the channel and did
-- not end the subscription after that.
pub channel_message_heard :
    (topics : List String) (topic : String) (payload : ℕ) (uuid : String) (s : Messaging)
    → ((handle_message (channel_message topic payload) uuid (subscribe topics s)).notices
        ≡ s.notices
          ++ heard (contains topic topics || contains topic s.subscriptions) topic payload uuid)
      × ((handle_message (channel_message topic payload) uuid (unsubscribe topics s)).notices
          ≡ s.notices
            ++ heard
                (not (contains topic topics) && contains topic s.subscriptions)
                topic
                payload
                uuid)
unfolding handle_message subscribe unsubscribe
channel_message_heard topics topic payload uuid s = (
  ground (arith, contains-add_members topics topic s.subscriptions, append-nil s.notices),
  ground (arith, contains-drop_members topics topic s.subscriptions, append-nil s.notices),
)
