-- ===== src/Network.antt =====
-- `DragoonNetwork` of dragoon_swarm.rs: its state, the commands and the events that change it.
pub mod SendBlockTo
pub mod Table
pub mod Defs
pub mod Outside
pub mod Files
pub mod New
pub mod Calls
pub mod Command
pub mod Event
pub mod Steps
pub mod Balance
pub mod Known
pub mod Dials
pub mod Fetch
pub mod Providers
pub mod Tests
