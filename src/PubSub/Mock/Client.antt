-- ===== src/PubSub/Mock/Client.antt =====
-- The client of ssf-hub/internal/pubsub/mock_client.go as a Pub/Sub client of the broker.
use caep_dev.PubSub.Api.{PubSubClient}
use caep_dev.PubSub.Mock.Defs
use caep_dev.PubSub.Mock.Defs.{MockClient}

unfoldable pub mock_client : (S : Type 0) → PubSubClient MockClient S
unfolding Defs.publish_event Defs.create_hub_subscription Defs.delete_hub_subscription
    Defs.pull_internal_messages
mock_client S = record {
  publish_event = Defs.publish_event;
  create_hub_subscription = Defs.create_hub_subscription;
  delete_hub_subscription = Defs.delete_hub_subscription;
  pull_internal_messages = Defs.pull_internal_messages;
  get_hub_instance_id = λ c. c.hub_instance_id;
}
