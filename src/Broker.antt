-- ===== src/Broker.antt =====
-- ssf-hub/internal/controller/broker.go: the hub's entry point, over a registry, a Pub/Sub client and
-- the hub receiver.
mod Defs
mod Receivers
pub mod Processing
pub mod Publishing
pub mod Registration
pub mod Stats
pub mod Alone
pub mod Polling
pub use Defs.*
unfoldable pub use Defs.{
  convert_to_security_event, notify, publish_converted, process_security_event, new_broker, start,
  stop,
}
pub use Receivers.*
unfoldable pub use Receivers.{
  register_receiver, unregister_receiver, update_receiver, get_receiver, list_receivers,
  get_receiver_subscription_info, get_broker_stats, same_items, tally_types, tally_receivers,
  slices_equal,
}
