-- ===== src/Events.antt =====
-- secevent/pkg/event and secevent/pkg/schemes: the events of security event tokens.
pub mod Defs
pub mod Metadata
pub mod Written
pub mod Base
pub mod AssuranceLevel
pub mod DeviceCompliance
pub mod Credential
pub mod SessionRevoked
pub mod TokenClaims
pub mod Verification
pub mod StreamUpdate
pub mod Registry
pub mod Payloads
pub mod Parsing
