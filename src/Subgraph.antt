-- ===== src/Subgraph.antt =====
-- The merge of the subgraphs of several workers into one graph: MergePartialSubgraphContext and
-- MergePartialSubgraph of provenance/parser/sub_mips.py.
pub mod State
pub mod Copy
pub mod Roots
pub mod Initial
pub mod Memory
pub mod Step
pub mod Covers
pub mod Gathered
pub mod Beginning
pub mod Image
pub mod Unchanged
pub mod Copied
pub mod Kept
pub mod Merged
