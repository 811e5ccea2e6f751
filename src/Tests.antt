-- ===== src/Tests.antt =====
-- A worker on a short trace, and the theorems at concrete inputs.
pub mod Samples
pub mod Traces
pub mod Parts
mod Visits
mod Merges
mod Axes
mod Backtraces
mod Stores
