-- ===== src/Tests/Merges.antt =====
-- The theorems on the merge of subgraphs at concrete inputs.
use cheriplot.Base.{[], ◌∷◌, none, some, true, false, refl, List, ℕ, ◌≡◌, inl, inr, arith}
use cheriplot.Graph.Lists.{list_graph}
use cheriplot.Model.Cap.{CheriCap, empty_cap}
use cheriplot.Model.Manager.{Pgm, prov}
use cheriplot.Subgraph.State.{
  PccFixup, SyscallResult, CallgraphResult, WorkerResult, Context, Merge, put_sub,
}
use cheriplot.Base.Errors.{Result, ok, err}
use cheriplot.Subgraph.Roots.{merge_trace_beginning}
use cheriplot.Subgraph.Step.{examine_vertices, new_merge}
use cheriplot.Subgraph.Image.{IsMerged, shape_of}
use cheriplot.Parser.Initial.{new_pgm}
use cheriplot.Subgraph.Beginning.{HasRoot, merge_trace_beginning-HasRoot}
use cheriplot.Base.Int.{negsuc}
use cheriplot.Subgraph.Merged.{examine_vertices-IsMerged}
use cheriplot.Model.Vertex.{fresh_data, setbounds}

abbrev child_cap : CheriCap
child_cap = record empty_cap {
  base = some 0x1000;
  length = some 0x40;
  permissions = some 7;
  objtype = some 0;
  valid = true;
}

-- A partial vertex with a child, as a worker returns them.
abbrev sub_graph : Pgm
sub_graph = record new_pgm {
  graph = record { vertices = 2; edges = (0, 1) ∷ [] };
  data_of = λ v. prov (record fresh_data { cap = some child_cap; origin = setbounds });
  layer_prov = λ v. true;
}

abbrev no_fixup : PccFixup
no_fixup = record { saved_addr = none; saved_pcc = none; epcc = none; badvaddr = none }

abbrev no_syscall : SyscallResult
no_syscall = record { active = false; pc_eret = none; eret_cap = none; eret_addr = none }

abbrev no_callgraph : CallgraphResult
no_callgraph = record { root = none; last_frame = none }

-- The vertex 0 is in the initial register set, or it is not.
abbrev result_with : List ℕ → WorkerResult
result_with initial = record {
  pgm = sub_graph;
  reg_nodes = [];
  initial_reg_nodes = initial;
  vertex_map = [];
  initial_map = [];
  pcc_fixup = no_fixup;
  syscall = no_syscall;
  callgraph = no_callgraph;
  cycles_start = 0;
  cycles_end = 9;
}

abbrev first_context : Context
first_context = record {
  main = new_pgm;
  prev_cycles_end = negsuc 0;
  prev_regset = [];
  prev_vmap = [];
  prev_pcc_fixup = no_fixup;
  prev_syscall = no_syscall;
  prev_callgraph = no_callgraph;
  step_idx = 0;
}

abbrev state_of : Result (Unit {0} × Merge) → Merge → Merge
state_of (ok (a, t)) s = t
state_of (err e) s = s

abbrev beginning : Merge
beginning = new_merge first_context (result_with (0 ∷ []))

abbrev begun : Merge
unfolding merge_trace_beginning
begun = state_of (merge_trace_beginning 0 beginning) beginning

merge_trace_beginning_test : merge_trace_beginning 0 beginning ≡ ok (tt, begun)
unfolding merge_trace_beginning begun
merge_trace_beginning_test = refl

merge_trace_beginning-HasRoot_example : HasRoot beginning begun 0 0
unfolding merge_trace_beginning begun
merge_trace_beginning-HasRoot_example =
    merge_trace_beginning-HasRoot 0 0 beginning begun refl merge_trace_beginning_test refl

abbrev plain : Merge
plain = new_merge first_context (result_with [])

abbrev copied : Merge
unfolding examine_vertices
copied = state_of (examine_vertices (0 ∷ 1 ∷ []) plain) plain

examine_vertices_test : examine_vertices (0 ∷ 1 ∷ []) plain ≡ ok (tt, copied)
unfolding examine_vertices copied put_sub
examine_vertices_test = refl

edges_test : copied.context.main.graph.edges ≡ (0, 1) ∷ []
unfolding examine_vertices copied put_sub
edges_test = refl

examine_vertices-IsMerged_example : IsMerged first_context.main (1 ∷ 0 ∷ []) (shape_of copied)
examine_vertices-IsMerged_example =
    examine_vertices-IsMerged first_context (result_with []) (0 ∷ 1 ∷ []) copied
      ((λ a. a), ((λ a. elim a [ inl e ↦ omega (arith, e) | inr z ↦ z ]), tt)) examine_vertices_test
