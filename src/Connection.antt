-- ===== src/Connection.antt =====
-- src/connection.rs.
pub mod Streams
pub mod Reads
pub mod Answers
pub mod Commands
pub mod Frames
pub mod Payloads
pub mod Fuel
pub mod Discards
pub mod Rounds
pub mod Loop
pub mod Accepted
pub mod Texts
pub mod Delivered
pub mod Plain
pub mod Protocol
pub mod Steps
pub mod Requests
pub mod Speaks
pub mod Replies
