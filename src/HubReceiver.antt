-- ===== src/HubReceiver.antt =====
-- ssf-hub/internal/hubreceiver/hubreceiver.go: the hub as a receiver of its own topic.
mod Defs
pub mod Consume
pub mod Messages
pub mod Own
pub mod Metrics
pub mod Lifecycle
pub use Defs.*
unfoldable pub use Defs.{
  new_hub_receiver, start, stop, is_message_expired, process_internal_message,
  pull_and_process_messages, health_check, as_receiver, get_status,
}
