-- ===== src/Redisapi/Scan.antt =====
-- redisapi/scan.go: replies into Go variables.
pub mod Dest
pub mod Assign
pub mod Variables
pub mod Spec
pub mod Structs
pub mod Slices
