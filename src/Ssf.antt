-- ===== src/Ssf.antt =====
-- ssfreceiver: the library with which a receiver manages its stream at a transmitter.
pub mod Retry
pub mod Types
pub mod Stream
pub mod Validation
pub mod Matching
pub mod Sending
pub mod Operations
