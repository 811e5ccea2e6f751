-- ===== src/Graph.antt =====
-- graph-tool, which the program calls and does not implement.
mod Interface
pub mod Lists
pub use Interface.*
