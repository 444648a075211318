-- ===== src/Cluster.antt =====
-- `send_block_list` of dragoon_swarm.rs together with both sides of every exchange it starts
-- (send_block_to/protocol.rs): one node that sends, and its peers with their disks.
mod Steps
pub mod Safety
pub mod Blocks
pub mod Tests
unfoldable pub use Steps.*
