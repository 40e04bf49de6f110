-- ===== src/PubSub.antt =====
-- The unified topic: what the hub asks of a Pub/Sub client, and the client in memory.
pub mod Api
pub mod Mock
