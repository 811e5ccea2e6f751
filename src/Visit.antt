-- ===== src/Visit.antt =====
-- cheriplot/provenance/visit: the visitors over the provenance graph.
pub mod State
pub mod Base
pub mod Filters
pub mod Execve
pub mod Decorate
pub mod Calls
pub mod Stack
pub mod Slice
pub mod SliceTimes
pub mod Sliced
pub mod Merge
pub mod Merged
pub mod Marks
pub mod Descend
pub mod Parents
pub mod Masked
pub mod ExecveCall
pub mod LastExecve
