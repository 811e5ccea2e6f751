-- ===== src/Parser.antt =====
-- provenance/parser: the worker that builds the graph from a trace.
pub mod State
pub mod VertexMap
pub mod RegisterSet
pub mod Worker
pub mod Nodes
pub mod Defer
pub mod Hardware
pub mod Derive
pub mod Arith
pub mod Clear
pub mod Memory
pub mod Branch
pub mod Syscall
pub mod Frames
pub mod Calls
pub mod Deferred
pub mod Dispatch
pub mod Initial
pub mod Shape
pub mod Sound
pub mod Monotone
pub mod FirstSeen
pub mod Stored
pub mod Loaded
pub mod Registers
pub mod CallStack
pub mod Exceptions
pub mod Cleared
