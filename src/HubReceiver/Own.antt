-- ===== src/HubReceiver/Own.antt =====
-- What ssf-hub/internal/hubreceiver/hubreceiver.go does with the messages of its own hub instance.
use caep_dev.Base.{String, List, All, none, some, ◌≡◌, refl, eq_refl, returns}
use caep_dev.Base.Dict.{lookup}
use caep_dev.Models.Receiver.{Receiver}
use caep_dev.Models.Message.{InternalMessage}
use caep_dev.PubSub.Mock.{MockClient, MockTopic, MockSubscription}
use caep_dev.PubSub.Mock.Client.{mock_client}
use caep_dev.PubSub.Mock.Keeps.{Keeps, pull-Keeps}
use caep_dev.HubReceiver.Defs.{
  Moment, Hub, process_internal_message, pull_and_process_messages, count_received,
}

-- The message was published by the hub instance.
abbrev pub IsFrom : String → InternalMessage → Type 0
IsFrom id m = m.metadata.hub_instance_id ≡ id

-- The hub receiver has this id, and has started these deliveries.
abbrev pub HasStarted : String → List (InternalMessage × List Receiver) → Hub → Type 0
HasStarted id started hub = (hub.receiver.hub_instance_id ≡ id) × (hub.started ≡ started)

module _ (id : String) (started : List (InternalMessage × List Receiver))
    (moment : InternalMessage → Moment) where
  process-own :
      (m : InternalMessage) (hub : Hub)
      → IsFrom id m
      → HasStarted id started hub
      → (hub' : Hub) × (process_internal_message (moment m) m hub ≡ returns (hub', none))
        × HasStarted id started hub'
  unfolding process_internal_message
  process-own m hub own (same, h) = (
    record hub { receiver = count_received hub.receiver },
    simp (own, same, eq_refl id),
    (same, h),
  )

  pub own-Keeps :
      Keeps Hub (IsFrom id) (HasStarted id started) (λ m. process_internal_message (moment m) m)
  own-Keeps = record { kept = process-own }

-- When all messages of the topic were published by the hub receiver's own instance, as they are when
-- one hub runs alone, a pull returns without an error and starts no delivery at all.
pub pull_own :
    (moment : InternalMessage → Moment) (c : MockClient) (hub : Hub) (sub : MockSubscription)
    (topic : MockTopic)
    → lookup hub.receiver.subscription_name c.subscriptions ≡ some sub
    → lookup sub.topic_name c.topics ≡ some topic
    → All (IsFrom hub.receiver.hub_instance_id) topic.messages
    → (c' : MockClient) × (hub' : Hub) × (pull_and_process_messages (mock_client Hub) moment c hub
        ≡ returns (c', hub', none))
      × (hub'.started ≡ hub.started)
unfolding pull_and_process_messages mock_client
pull_own moment c hub sub topic p q own =
    let (c', hub', same, topics, (id, h)) =
      pull-Keeps (λ m. process_internal_message (moment m) m)
        (own-Keeps hub.receiver.hub_instance_id hub.started moment) hub.receiver.subscription_name
        99 c hub sub topic p q own (refl, refl) in
    (c', hub', same, h)
