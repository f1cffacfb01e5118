-- ===== src/Tests.antt =====
-- Runs of the model at concrete inputs, and the theorems at inputs that meet their hypotheses.
pub mod Samples
pub mod ConfigRuns
pub mod LifeRuns
pub mod WrapperRuns
pub mod BreakerRuns
pub mod ClientRuns
pub mod MirrorRuns
pub mod MirrorSteps
pub mod ReloadRuns
pub mod ReplyRuns
pub mod ScanRuns
pub mod StructRuns
