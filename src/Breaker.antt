-- ===== src/Breaker.antt =====
-- The package circuitbreaker: options, circuits and the run of a routine under a circuit breaker.
pub mod Options
pub mod Builder
pub mod Run
pub mod Circuits
