-- ===== src/Parser/Sound.antt =====
-- What the callbacks of a worker keep: proofs that each step of the shared state is sound.
pub mod Graph
pub mod Edges
pub mod Regs
pub mod SetReg
pub mod HasReg
pub mod Nodes
pub mod Steps
pub mod Moves
pub mod Memory
pub mod Running
pub mod Pointer
pub mod Branch
pub mod Frames
pub mod Calls
pub mod Syscall
pub mod Trace
pub mod Initial
pub mod Provenance
