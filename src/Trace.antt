-- ===== src/Trace.antt =====
-- src/shk-trace/src: what the files that a traced program touches come to.
pub mod Events
pub mod Descriptors
pub mod Cwd
