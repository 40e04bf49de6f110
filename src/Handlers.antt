-- ===== src/Handlers.antt =====
-- ssf-hub/internal/handlers/handlers.go: the HTTP handlers over the broker and the registry.
pub mod Defs
pub mod Events
pub mod Receivers
pub mod Laws
