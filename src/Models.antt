-- ===== src/Models.antt =====
-- ssf-hub/pkg/models: receivers, events, filters and the internal message.
pub mod Value
pub mod Receiver
pub mod Event
pub mod Filter
pub mod Message
