-- ===== src/Serialize.antt =====
-- to_serialize.rs and `SerNetworkInfo` of commands.rs: what a client of the HTTP interface gets for an
-- answer.
pub mod Json
pub mod Convert
pub mod Read
pub mod Tests
