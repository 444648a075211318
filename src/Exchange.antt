-- ===== src/Exchange.antt =====
-- send_block_to/protocol.rs and peer_block_info.rs: the exchange of one block between two nodes.
pub mod Codes
pub mod Frame
pub mod World
pub mod Sender
pub mod Receiver
pub mod Quiet
pub mod Accounting
pub mod Runs
pub mod Session
pub mod Agreement
pub mod Mute
pub mod Confirmed
pub mod Stored
pub mod Acknowledged
pub mod Reported
pub mod Delivered
pub mod Breaks
pub mod Leak
pub mod Absolute
pub mod Tests
