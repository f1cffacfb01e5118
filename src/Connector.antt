-- ===== src/Connector.antt =====
-- connector.go: the client that mirrors commands to the load test clients.
pub mod Queue
pub mod Reload
pub mod Create
pub mod Commands
pub mod Setup
pub mod Shutdown
pub mod Mirror
