-- ===== src/Distributor.antt =====
-- ssf-hub/internal/distributor/distributor.go: delivery of events to the receivers' webhooks.
mod Defs
mod Loop
pub mod Dispatch
pub mod Retry
pub mod Endings
pub mod Waits
pub mod Unimplemented
pub mod Counters
pub use Defs.*
pub use Loop.*
unfoldable pub use Defs.{
  new_event_distributor, should_deliver, dispatch, dispatch_all, distribute_to_receivers,
  add_authentication, perform_webhook_delivery,
}
unfoldable pub use Loop.{
  record_attempt, succeed, fail, next_backoff, retry, round, attempts,
  perform_delivery_with_retries, deliver_webhook, health_check,
}
