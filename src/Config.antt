-- ===== src/Config.antt =====
-- config.go and model.go: the configuration of a connector and of its clients.
pub mod Modes
pub mod Records
pub mod Address
pub mod Checks
