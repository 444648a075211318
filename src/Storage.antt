-- ===== src/Storage.antt =====
-- The storage that a node gives to blocks sent by others: send_block_to.rs, the two storage commands and
-- `get_current_available_storage` of dragoon_swarm.rs.
mod SendFile
pub mod Ledger
pub mod Restart
pub mod Served
pub mod Limit
pub mod Race
pub mod Handler
pub mod Tests
unfoldable pub use SendFile.*
unfoldable pub use Ledger.*
