-- ===== src/Cmd.antt =====
-- src/shk/src/cmd: the runners of commands.
pub mod Pool
