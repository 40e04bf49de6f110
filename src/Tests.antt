-- ===== src/Tests.antt =====
-- The theorems at concrete inputs: two receivers, an event, a message and a client.
mod Data
mod Models
mod Registry
mod Delivery
mod Hub
mod Processing
mod Subjects
mod Tokens
mod Handlers
mod Ssf
