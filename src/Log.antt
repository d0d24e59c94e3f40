-- ===== src/Log.antt =====
-- src/shk/src/log: the log of what the steps of earlier builds have read and written.
pub mod Bytes
pub mod Data
pub mod Parsed
pub mod Parser
pub mod Parse
pub mod Writer
pub mod Operations
pub mod Synced
pub mod Delayed
mod Tests
