-- ===== src/Model.antt =====
-- provenance/model.py: capabilities, the event table of a vertex, and the graph manager.
pub mod Cap
pub mod EventType
pub mod Vertex
pub mod Manager
pub mod ActiveMemory
