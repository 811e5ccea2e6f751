-- ===== src/Tests/Stores.antt =====
-- A capability that is stored and loaded back, and the theorem on stores and loads there.
use cheriplot.Base.{[], ◌∷◌, some, false, refl, ◌≡◌, ℕ, get_elem?, true}
use cheriplot.Graph.Lists.{list_graph}
use cheriplot.Trace.{Instruction, Operand, cap_index, has_exception}
use cheriplot.Model.Cap.{cheri_cap}
use cheriplot.Model.Vertex.{has_active_memory, add_mem_store, add_mem_load}
use cheriplot.Parser.State.{py_index}
use cheriplot.Parser.Worker.{Worker}
use cheriplot.Parser.VertexMap.{vertex_at, mem_store, mem_load}
use cheriplot.Parser.Initial.{new_worker}
use cheriplot.Parser.Nodes.{make_root_node}
use cheriplot.Parser.RegisterSet.{has_reg, is_cap_compatible}
use cheriplot.Parser.Defer.{operand_value, is_deferred, assert_matches}
use cheriplot.Parser.Memory.{scan_csc, scan_clc, loaded_vertex}
use cheriplot.Tests.Samples.{sample_inst, cap_operand, end_of_run}

-- A store of $c3 and a load to $c2 at the same address.
abbrev store_inst : Instruction
store_inst = sample_inst "csc" (cap_operand 3 ∷ cap_operand 1 ∷ []) 1

abbrev load_inst : Instruction
load_inst = sample_inst "clc" (cap_operand 2 ∷ cap_operand 1 ∷ []) 2

abbrev target : ℕ → Operand
target n = record { info = cap_operand n; is_destination = true }

abbrev stored : Worker
unfolding new_worker scan_csc
stored = end_of_run (scan_csc store_inst false (new_worker 32)) (new_worker 32)

abbrev loaded : Worker
unfolding scan_clc
loaded = end_of_run (scan_clc load_inst false stored) stored

-- The vertex that the store made for $c3 is in $c2 behind the load.
regs_test :
    (get_elem? loaded.core.reg_nodes 2 ≡ some (some 66))
    × (get_elem? loaded.core.reg_nodes 3 ≡ some (some 66))
unfolding new_worker scan_csc is_deferred has_exception operand_value has_reg py_index
    make_root_node cheri_cap has_active_memory cap_index vertex_at mem_store scan_clc loaded_vertex
    is_cap_compatible mem_load add_mem_store assert_matches add_mem_load
regs_test = (refl, refl)
