-- ===== src/Strategy.antt =====
-- send_strategy.rs, send_strategy_impl.rs and src/send_strategy_impl/: which peer gets which block.
-- A peer id is an opaque key that the code compares and sorts: a number stands for it.
-- A fused stream is the list of what it still yields; a drained one yields nothing for ever.
mod Defs
pub mod Laws
pub mod Sort
pub mod RoundRobin
pub mod Random
pub mod Tests
unfoldable pub use Defs.*
