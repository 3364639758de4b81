-- ===== src/Config.antt =====
-- src/hs_config.c: the options that are read from a Lua state, and the two kinds of configurations.
pub mod Options
pub mod Sandbox
pub mod Defaults
pub mod Main
pub mod LoadDirectory
pub mod Runtime
