-- ===== src/Lib.antt =====
-- cheriplot reads traces of a CHERI-MIPS processor and builds a graph from them: a provenance layer,
-- whose vertices are capabilities and whose edges say which capability was derived from which, and
-- a call layer, whose vertices are function and system calls. The interval of a trace is split among
-- workers. A worker gives each entry to the callbacks of its opcode, which change its register set,
-- its memory map, its call stack and its graph. The graphs of the workers are merged in the order of
-- the trace, and visitors mask and mark vertices of the merged graph. This library models the split,
-- the workers and the merge (cheriplot/core/parser, cheriplot/provenance/parser), the data that they
-- build (cheriplot/provenance/model.py) and the visitors (cheriplot/provenance/visit), how a plot chooses
-- the ranges of addresses that it shows (cheriplot/core/plot), and the parser that builds a call graph
-- from the end of a trace (cheriplot/callgraph).
--
-- Files:
--   Base        the libraries' names, lists, dicts and property maps, the integers of Python over the
--               native numbers (Base/Int), exceptions as values with a state monad (Base/Errors), and
--               postconditions with a rule for each form of statement (Base/Post), masks (Base/Bits)
--   Graph       graph-tool as an interface with its documented laws, and a list of edges that meets it
--   Trace       the records of pycheritrace; Operand and Instruction of core/parser/base.py
--   Model       cheriplot/provenance/model.py: CheriCap, EventType, ProvenanceVertexData,
--               CallVertexData and ProvenanceGraphManager; Model/ActiveMemory has the proofs on events
--   Parser      cheriplot/provenance/parser: State is what RegisterSet and VertexMemoryMap of base.py
--               share, RegisterSet and VertexMap their methods, Worker the fields of the subparsers of
--               sub_mips.py; Nodes, Defer, Hardware, Derive, Arith, Clear and Memory the methods of
--               PointerProvenanceSubparser, Branch those of CapabilityBranchSubparser, Syscall those of
--               SyscallSubparser and InitialStackAccessSubparser, Frames and Calls those of
--               CallgraphSubparser; Deferred runs the queues, Dispatch is get_callbacks and the body of
--               _scan, Initial the constructors
--   Parser/Shape, Parser/Sound
--               the invariant of a worker, and that each callback keeps it, a file for each part
--   Parser/Registers, FirstSeen, Stored, Loaded, Cleared, CallStack, Exceptions, Monotone
--               the behaviour of the register set, the memory map, stores and loads of capabilities, the
--               clearing of registers, calls and returns, exceptions, and the check of make_node
--   Chunks      what MultiprocessCallbackParser.parse in core/parser/base.py gives its workers: one gets
--               the whole interval, and more share it in blocks
--   Subgraph    MergePartialSubgraph of provenance/parser/sub_mips.py: State its fields and the results
--               of a worker, Copy the copy of a vertex with its edges, Roots, Initial and Memory the
--               registers and the memory at the beginning of a subgraph, Step the search and its end;
--               Covers, Gathered, Beginning, Image, Unchanged, Copied, Kept and Merged are proofs
--   Visit       cheriplot/provenance/visit: Base is base.py, Filters, Execve, Decorate, Calls and Stack
--               the visits of filters.py (Calls also symbols.py), Slice slice.py, Merge
--               vertex_merge.py; Merged, Marks, Descend, ExecveCall, LastExecve, Masked, Parents,
--               SliceTimes and Sliced are proofs
--   Axis        the ranges of core/plot/patch.py, and their merge and the intervals of the axis in
--               core/plot/addrspace_axes.py, over exact numbers (Ranges, Collapse); Loop, Cover, Shown,
--               Whole and Added are proofs, Sorted is a sorted list that meets the interface
--   Callgraph   CallGraphTraceParser of callgraph/call_graph.py (Backtrace); Simple and Matched are proofs
--   Tests       runs of short traces, and the theorems at concrete inputs
--
-- A callback takes one trace entry and changes the state of the worker, or raises. A step that may
-- raise is a function from the state to a result; no code of the program reads the state that an
-- exception leaves, so a raise has none. A vertex and an edge are their indices, and the objects of
-- the `data` property are values: what a method changes is written back at once. Numbers of a trace
-- are unbounded, as in Python; lengths and addresses are natural numbers, times start at -1 and are
-- integers. The loops are over lists, and the loop over the deferred callbacks, whose list grows while
-- it runs, is two passes, since what a pass appends appends nothing. Two functions run on fuel: the
-- recursion of a visit over first parents, which a cycle of the graph would keep going, with fuel that
-- is proved enough where edges lead upwards; and the merge of ranges, with a round for each range,
-- which is proved enough.
--
-- A search of graph-tool is an argument: the list of the calls that it makes of a visitor, or of the
-- vertices that it examines. The merge shares the data object of a vertex between the subgraph and the
-- merged graph: the field `shared` says which vertices share it, and a write goes to both. The loop
-- over the children in `_merge_initial_vertex_to_prev` runs over the children before it. In the merge
-- the times of events stay natural numbers: a shift by -1 at time 0 stops at 0.
--
-- Not modelled: the processes and queues of the workers, the pickling, log messages but for those that
-- can raise, the drawing of plots and the transforms of their axes, command lines,
-- the symbols and plots of cheriplot/callgraph, vmmap and dbg.
pub mod Base
pub mod Graph
pub mod Trace
pub mod Model
pub mod Parser
pub mod Visit
pub mod Subgraph
pub mod Chunks
pub mod Axis
pub mod Callgraph
pub mod Tests
