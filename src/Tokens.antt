-- ===== src/Tokens.antt =====
-- secevent/pkg/token and secevent/pkg/builder: security event tokens.
pub mod Defs
pub mod Single
pub mod Multi
pub mod Builder
pub mod RoundTrip
pub mod Delivered
