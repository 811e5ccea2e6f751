-- ===== src/Callgraph.antt =====
-- cheriplot/callgraph: the call graph that is built from the calls and returns of a trace.
pub mod Backtrace
pub mod Simple
pub mod Matched
