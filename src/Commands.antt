-- ===== src/Commands.antt =====
-- commands.rs and main.rs: the commands, the HTTP handlers that make them, and their routes.
pub mod Defs
pub mod Handlers
pub mod Routes
pub mod Tests
