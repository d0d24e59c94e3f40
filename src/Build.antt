-- ===== src/Build.antt =====
-- src/shk/src/build.h and build.cpp: what to build, in which order, and what can be left alone.
pub mod Data
pub mod Deps
pub mod Memo
pub mod Clean
pub mod Start
pub mod Graph
pub mod Ready
pub mod Schedule
pub mod Cleanup
pub mod Run
