-- ===== src/Redisapi.antt =====
-- The package redisapi: values of commands and replies, scripts, and the conversion of replies.
pub mod Value
pub mod Script
pub mod Strconv
pub mod Failure
pub mod Reply
pub mod Geo
pub mod Scan
pub mod Args
