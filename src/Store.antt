-- ===== src/Store.antt =====
-- src/store.rs.
pub mod Items
pub mod Cache
pub mod Inner
pub mod Reads
pub mod Writes
pub mod Updates
pub mod Versions
pub mod ReadTokens
pub mod WriteTokens
pub mod Tokens
pub mod Traces
pub mod View
pub mod Outcomes
pub mod Effects
pub mod Additions
pub mod Hits
pub mod Touches
pub mod Books
pub mod Balance
pub mod Expiry
pub mod Flushes
pub mod Idle
pub mod Tasks
