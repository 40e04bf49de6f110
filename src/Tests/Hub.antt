-- ===== src/Tests/Hub.antt =====
-- The theorems on the broker, the hub receiver and the Pub/Sub client at concrete inputs.
use caep_dev.Base.{
  ℕ, zero, suc, ◌+◌, ◌≤◌, ◌<◌, ◌%◌, ◌^◌, String, List, [], ◌∷◌, ◌++◌, Option, none, some, ◌≡◌, ◌≢◌,
  ◌↔◌, ◌⊎◌, refl, arith, returns, panics, ok, err, All, keep, take, length, ◌==◌, Bool, true, false,
}
use caep_dev.Base.Int.{pos}
use caep_dev.Base.Dict.{lookup, remove}
use caep_dev.Models.Message.{InternalMessage}
use caep_dev.PubSub.Api.{Handler, Error}
use caep_dev.PubSub.Mock.{MockClient, MockSubscription, pull_internal_messages, process_messages}
use caep_dev.PubSub.Mock.Client.{mock_client}
use caep_dev.PubSub.Mock.Delivery.{Works, is_new, run_all, pull_twice}
use caep_dev.HubReceiver.{HubReceiver, Hub, Moment, process_internal_message, stop, start}
use caep_dev.HubReceiver.Messages.{Handles, process_internal_message-Handles}
use caep_dev.HubReceiver.Metrics.{received, IsCounted, process_messages-IsCounted}
use caep_dev.HubReceiver.Consume.{Round, consume_messages}
use caep_dev.HubReceiver.Lifecycle.{GoesOn, stop-GoesOn}
use caep_dev.Base.{false}
use caep_dev.HubReceiver
use caep_dev.HubReceiver.{pull_and_process_messages}
use caep_dev.Tests.Data.{
  alpha, beta, message, topic, subscription, client, other_hub, hub_receiver, moment,
}

abbrev counter : Handler ℕ
counter m n = returns (suc n, none)

abbrev step : InternalMessage → ℕ → ℕ
step m n = suc n

counter-Works : Works ℕ counter step
counter-Works = record { returned = λ m s. refl }

subscribed : lookup "ssf-hub-subscription-hub-1" client.subscriptions ≡ some subscription
unfolding lookup
subscribed = refl

has_topic : lookup "ssf-hub-events" client.topics ≡ some topic
unfolding lookup
has_topic = refl

one_new : length (keep (is_new subscription.messages) topic.messages) ≤ 100
unfolding keep caep_dev.PubSub.Mock.message_in_subscription
one_new = omega arith

pull_twice_example :
    (c' : MockClient) × (c'' : MockClient) × (pull_internal_messages "ssf-hub-subscription-hub-1"
        (pos 100)
        counter
        client
        5
      ≡ returns (c', run_all step (keep (is_new subscription.messages) topic.messages) 5, none))
    × (pull_internal_messages "ssf-hub-subscription-hub-1" (pos 100) counter c' 7
        ≡ returns (c'', 7, none))
pull_twice_example =
    pull_twice counter step counter-Works "ssf-hub-subscription-hub-1" 99 client 5 7 subscription
      topic subscribed has_topic one_new

process_internal_message-Handles_example : Handles (moment message) message other_hub
process_internal_message-Handles_example =
    process_internal_message-Handles (moment message) message other_hub

abbrev sub_after : MockSubscription
sub_after = record subscription { messages = message ∷ [] }

abbrev hub_after : Hub
hub_after = record {
  receiver = record other_hub.receiver {
    metrics = record {
      messages_received = 1;
      messages_processed = 1;
      messages_failed = 0;
      processing_duration = 2;
      last_processed_at = 53;
    };
  };
  started = (message, alpha ∷ beta ∷ []) ∷ [];
}

processes :
    process_messages
      (λ m. process_internal_message (moment m) m)
      (message ∷ [])
      subscription
      other_hub
    ≡ returns (sub_after, hub_after, none)
unfolding process_messages process_internal_message lookup caep_dev.Base.copy
    caep_dev.Models.Filter.filter_matches caep_dev.Models.Filter.extract_field_value
    caep_dev.Models.Filter.contains
processes = refl

process_messages-IsCounted_example :
    (◌≡◌ {A = Option Error} none none)
    × (received hub_after ≡ (received other_hub + length (message ∷ [])) % 2 ^ 64)
    × IsCounted 0 hub_after
process_messages-IsCounted_example =
    process_messages-IsCounted moment 0 (message ∷ []) subscription sub_after other_hub hub_after
      none (omega arith) (omega arith, refl) processes

abbrev stopped_receiver : HubReceiver
stopped_receiver = record hub_receiver { running = false; stopped = true }

stops :
    HubReceiver.stop (mock_client Hub) client hub_receiver
    ≡ returns (record client { subscriptions = [] }, stopped_receiver, none)
unfolding HubReceiver.stop mock_client remove
stops = refl

abbrev restarted : Hub
restarted = record {
  receiver = (HubReceiver.start (mock_client Hub) 60 client stopped_receiver).1;
  started = [];
}

abbrev idle_round : Round
idle_round = record {
  published = [];
  stop_called = false;
  cancelled = false;
  stop_called_in_wait = false;
  cancelled_in_wait = false;
  moment = moment;
}

started_again : GoesOn (mock_client Hub) stopped_receiver restarted.receiver
started_again = GoesOn.starts 60 client stopped_receiver GoesOn.rests

stop-GoesOn_example :
    (HubReceiver.stop (mock_client Hub) client restarted.receiver ≡ panics)
    × (consume_messages (mock_client Hub) (idle_round ∷ []) client restarted
        ≡ returns (client, restarted))
stop-GoesOn_example =
    stop-GoesOn (mock_client Hub) client (record client { subscriptions = [] }) client hub_receiver
      stopped_receiver none restarted idle_round [] stops started_again
