-- ===== src/Util.antt =====
-- src/shk-util/src: paths; src/shk/src/util.cpp: the escaping of strings.
pub mod Path
pub mod Split
pub mod Escape
