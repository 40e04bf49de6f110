-- ===== src/Registry.antt =====
-- ssf-hub/internal/registry/registry.go: the receivers in memory. Each method holds the lock for its
-- whole body, so it is one step from a registry to the next. Readings of the clock are arguments,
-- and a pointer that may be nil is an `Option`.
mod Defs
mod Queries
pub mod Operations
pub mod Invariant
pub mod Selection
pub mod Reads
pub mod Errors
pub mod Frame
pub mod Totals
pub use Defs.*
pub use Queries.*
unfoldable pub use Defs.{
  copy_receiver, register_found, register_validated, update_found, update_validated, modify,
  register, unregister, unregister_found, get, list, update, update_stats, increment_event_received,
  increment_event_delivered, increment_event_failed, set_receiver_status, get_receiver_stats,
}
unfoldable pub use Queries.{
  filter_loop, tally, tally_loop, get_by_event_type, get_active_receivers, matches_filters,
  filter_receivers, count, count_by_status,
}
