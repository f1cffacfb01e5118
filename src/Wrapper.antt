-- ===== src/Wrapper.antt =====
-- The wrapped goredis clients: the options that config.go builds for them, and the `reload` of
-- client_wrapper.go and cluster_wrapper.go.
pub mod Options
pub mod Calls
pub mod Settings
pub mod Single
pub mod Cluster
