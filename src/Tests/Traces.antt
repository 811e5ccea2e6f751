-- ===== src/Tests/Traces.antt =====
-- A worker on a short trace, and the theorems on whole traces there.
use cheriplot.Base.{[], ◌∷◌, some, true, refl, List, ◌≡◌, ◌<◌, arith}
use cheriplot.Graph.Lists.{list_graph}
use cheriplot.Parser.Initial.{new_worker}
use cheriplot.Parser.Dispatch.{scan_trace}
use cheriplot.Parser.Sound.Running.{IsRunning, IsStack}
use cheriplot.Model.Cap.{of_register, cheri_cap, bound}
use cheriplot.Parser.Sound.Provenance.{
  Descends, scan_trace-acyclic, scan_trace-IsStack, scan_trace-Later, scan_trace-IsWithin,
}
use cheriplot.Trace.{
  Instruction, cap_index, in_delay_slot, has_exception, operand_at, is_capability,
}
use cheriplot.Parser.Worker.{Worker}
use cheriplot.Parser.Hardware.{scan_cgetpcc}
use cheriplot.Parser.Sound.Initial.{new_worker-IsRunning}
use cheriplot.Parser.Shape.{Grows, frozen, shape}
use cheriplot.Parser.Monotone.{IsWithin}
use cheriplot.Tests.Samples.{sample_inst, cap_operand, end_of_run, sample_cap}
use cheriplot.Parser.Defer.{operand_value}
use cheriplot.Parser.RegisterSet.{has_reg}
use cheriplot.Base.Errors.{ok}
use cheriplot.Parser.State.{py_index}
use cheriplot.Parser.Nodes.{make_root_node, make_node}
use cheriplot.Model.Vertex.{root, setbounds, has_active_memory}
use cheriplot.Parser.Derive.{scan_csetbounds}

-- `cgetpcc $c1` and `csetbounds $c2, $c1`.
abbrev sample_trace : List Instruction
sample_trace =
    sample_inst "cgetpcc" (cap_operand 1 ∷ []) 1
    ∷ sample_inst "csetbounds" (cap_operand 2 ∷ cap_operand 1 ∷ []) 2
    ∷ []

abbrev start : Worker
unfolding new_worker
start = new_worker 32

-- The worker behind the trace.
abbrev finished : Worker
unfolding scan_trace
finished = end_of_run (scan_trace sample_trace start) start

-- cgetpcc makes a root under the partial vertex of pcc, and csetbounds a child of the root.
edges_test : finished.core.pgm.graph.edges ≡ (64, 66) ∷ (66, 67) ∷ []
unfolding scan_trace new_worker scan_cgetpcc operand_value has_reg py_index make_root_node cheri_cap
    has_active_memory cap_index in_delay_slot has_exception scan_csetbounds make_node operand_at
    is_capability bound
edges_test = refl

layers_test : finished.core.pgm.layer_prov 67 ≡ true
unfolding scan_trace new_worker scan_cgetpcc operand_value has_reg py_index make_root_node cheri_cap
    has_active_memory cap_index in_delay_slot has_exception scan_csetbounds make_node operand_at
    is_capability bound
layers_test = refl

run_test : scan_trace sample_trace (new_worker 32) ≡ ok (tt, finished)
unfolding scan_trace new_worker scan_cgetpcc operand_value has_reg py_index make_root_node cheri_cap
    has_active_memory cap_index in_delay_slot has_exception scan_csetbounds make_node operand_at
    is_capability bound
run_test = refl

scan_trace-Later_example : IsRunning finished × Grows (new_worker 32).core.pgm finished.core.pgm
scan_trace-Later_example =
    scan_trace-Later sample_trace (new_worker 32) finished (new_worker-IsRunning 32) run_test

-- The second edge is the one from the root to the child.
second_edge : 1 < list_graph.num_edges finished.core.pgm.graph
unfolding scan_trace new_worker scan_cgetpcc operand_value has_reg py_index make_root_node cheri_cap
    has_active_memory cap_index in_delay_slot has_exception scan_csetbounds make_node operand_at
    is_capability bound
second_edge = omega arith

second_layer : finished.core.pgm.layer_prov (list_graph.target finished.core.pgm.graph 1) ≡ true
unfolding scan_trace new_worker scan_cgetpcc operand_value has_reg py_index make_root_node cheri_cap
    has_active_memory cap_index in_delay_slot has_exception scan_csetbounds make_node operand_at
    is_capability bound
second_layer = refl

source_shape :
    shape (finished.core.pgm.data_of (list_graph.source finished.core.pgm.graph 1))
    ≡ some (root, some (frozen (of_register (sample_cap 0x100))))
unfolding scan_trace new_worker scan_cgetpcc operand_value has_reg py_index make_root_node cheri_cap
    has_active_memory cap_index in_delay_slot has_exception scan_csetbounds make_node operand_at
    is_capability bound of_register
source_shape = refl

target_shape :
    shape (finished.core.pgm.data_of (list_graph.target finished.core.pgm.graph 1))
    ≡ some (setbounds, some (frozen (of_register (sample_cap 0x40))))
unfolding scan_trace new_worker scan_cgetpcc operand_value has_reg py_index make_root_node cheri_cap
    has_active_memory cap_index in_delay_slot has_exception scan_csetbounds make_node operand_at
    is_capability bound of_register
target_shape = refl

scan_trace-IsWithin_example :
    IsWithin (frozen (of_register (sample_cap 0x100))) (frozen (of_register (sample_cap 0x40)))
unfolding of_register
scan_trace-IsWithin_example =
    scan_trace-IsWithin 32 sample_trace finished run_test 1 second_edge second_layer root setbounds
      (frozen (of_register (sample_cap 0x100))) (frozen (of_register (sample_cap 0x40)))
      source_shape target_shape refl refl

scan_trace-acyclic_example : ¬ (Descends finished.core.pgm 66 66)
scan_trace-acyclic_example = scan_trace-acyclic 32 sample_trace finished run_test 66

scan_trace-IsStack_example : IsStack finished.calls.root finished.calls.call_stack
scan_trace-IsStack_example = scan_trace-IsStack 32 sample_trace finished run_test
