-- ===== src/SendList.antt =====
-- `send_block_list` of dragoon_swarm.rs: a list of blocks is sent to the peers of a strategy, then
-- what was refused is sent again to the peers that accepted.
-- Messages between the tasks are lists: the commands that the function hands to the network task, and
-- the answers that it receives, in the order of their arrival. A command whose channel is closed is
-- one that gets no answer.
mod Defs
mod Optimistic
mod Recovery
pub mod Vectors
pub mod Peers
pub mod Index
pub mod Answers
pub mod Blocks
pub mod Delivery
pub mod Schedule
pub mod Pending
pub mod Rounds
pub mod Termination
pub mod Ignored
pub mod Resend
pub mod Tests
unfoldable pub use Defs.*
unfoldable pub use Optimistic.*
unfoldable pub use Recovery.*
