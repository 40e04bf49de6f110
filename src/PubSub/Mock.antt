-- ===== src/PubSub/Mock.antt =====
-- ssf-hub/internal/pubsub/mock_client.go: topics and subscriptions in memory. Each method but
-- `PullInternalMessages` holds the lock for its whole body. A pull looks its subscription and topic
-- up, and then works on them; no other call comes between in the model.
mod Defs
pub mod Delivery
pub mod Keeps
pub mod Client
pub use Defs.*
unfoldable pub use Defs.{
  new_mock_client, get_or_create_topic, publish_event, create_hub_subscription,
  delete_hub_subscription, message_in_subscription, collect, process_messages,
  pull_internal_messages, clear_all_messages,
}
