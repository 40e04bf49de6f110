-- ===== src/Ssf/Retry.antt =====
-- ssfreceiver/internal/retry: the loop that repeats a request.
pub mod Defs
pub mod Loop
pub mod Steps
pub mod Rounds
