-- ===== src/Download.antt =====
-- `get_file` of dragoon_swarm.rs: the download of enough blocks, and what is done before and after it.
pub mod Loop
pub mod Enough
pub mod Requests
pub mod GetFile
pub mod Ending
pub mod Output
pub mod Verified
pub mod Tests
