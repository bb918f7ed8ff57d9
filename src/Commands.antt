-- ===== src/Commands.antt =====
-- cmd/webhook: the start of the service.
pub mod Settings
pub mod Config
pub mod Startup
