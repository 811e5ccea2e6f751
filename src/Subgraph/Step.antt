-- ===== src/Subgraph/Step.antt =====
-- `examine_vertex` and `finalize` of MergePartialSubgraph, `step` of the context, and `mp_merge` of
-- provenance/parser/base.py. The order in which the search of graph-tool examines the vertices is an
-- argument.
use cheriplot.Base.{
  ℕ, Bool, ◌||◌, Option, none, some, List, [], ◌∷◌, ◌==◌, if◌then◌else◌, opt_eq, Dict, false,
  mem_nat, suc,
}
use cheriplot.Graph.{GraphTool}
use cheriplot.Base.Errors.{
  M, pure, err, ok, ◌>>◌, ◌>>=◌, get, when, or_raise, modify, subgraph_merge,
}
use cheriplot.Subgraph.State.{CallgraphResult, Context, WorkerResult, Merge}
use cheriplot.Model.Manager.{Pgm}
use cheriplot.Subgraph.Copy.{merge_subgraph_vertex}
use cheriplot.Base.Int.{pos}
use cheriplot.Subgraph.Initial.{merge_initial_vertex}
use cheriplot.Subgraph.Memory.{
  merge_pcc_fixup, merge_syscall, merge_callgraph, merge_initial_mem_vertex,
}

-- `u in map.values()`
abbrev pub has_value : ℕ → Dict ℕ → Bool
has_value u [] = false
has_value u ((key, val) ∷ entries) = let rest = has_value u entries in u == val || rest

-- `get_final_vmap`: the entries whose vertex was copied.
unfoldable pub final_vmap : (ℕ → Option ℕ) → Dict ℕ → Dict ℕ
final_vmap copy [] = []
final_vmap copy ((key, u) ∷ entries) =
    let rest = final_vmap copy entries in elim (copy u) [ none ↦ rest | some v ↦ (key, v) ∷ rest ]

-- `get_final_regset`
unfoldable pub final_regset : (ℕ → Option ℕ) → List (Option ℕ) → List (Option ℕ)
final_regset copy [] = []
final_regset copy (none ∷ regs) = none ∷ final_regset copy regs
final_regset copy (some u ∷ regs) = copy u ∷ final_regset copy regs

module _ ⦃gt : GraphTool⦄ where
  abbrev pub is_vertex : ℕ → Option ℕ → Bool
  is_vertex u o = opt_eq (some u) o

  unfoldable pub merge_first : ℕ → M Merge (Unit {0})
  unfolding merge_initial_vertex merge_subgraph_vertex
  merge_first u = do
    s ← get
    if mem_nat u s.curr.initial_reg_nodes then merge_initial_vertex u else merge_subgraph_vertex u

  unfoldable pub merge_later : ℕ → M Merge (Unit {0})
  unfolding merge_pcc_fixup merge_syscall merge_callgraph merge_initial_vertex
      merge_initial_mem_vertex merge_subgraph_vertex
  merge_later u = do
    s ← get
    when (is_vertex u s.curr.pcc_fixup.epcc) (merge_pcc_fixup u)
    when (is_vertex u s.curr.syscall.eret_cap) (merge_syscall u)
    if is_vertex u s.curr.callgraph.root
        then merge_callgraph u
        else if mem_nat u s.curr.initial_reg_nodes
        then merge_initial_vertex u
        else if has_value u s.curr.initial_map
        then merge_initial_mem_vertex u
        else merge_subgraph_vertex u

  unfoldable pub examine_vertex : ℕ → M Merge (Unit {0})
  unfolding merge_first merge_later
  examine_vertex u = do
    s ← get
    if s.omit_vertex_map u
        then pure tt
        else if s.context.step_idx == 0
        then merge_first u
        else merge_later u

  unfoldable pub examine_vertices : List ℕ → M Merge (Unit {0})
  unfolding examine_vertex
  examine_vertices [] = pure tt
  examine_vertices (u ∷ us) = do examine_vertex u; examine_vertices us

  -- A vertex that the next step needs must have a copy.
  unfoldable pub copied : Option ℕ → M Merge (Option ℕ)
  copied none = pure none
  copied (some u) = do s ← get; v ← or_raise (s.copy_vertex_map u) subgraph_merge; pure (some v)

  unfoldable pub final_callgraph : (ℕ → Option ℕ) → CallgraphResult → CallgraphResult
  final_callgraph copy c = record {
    root = none;
    last_frame = elim c.last_frame [
      | none ↦ none
      | some none ↦ some none
      | some (some u) ↦ some (copy u)
    ];
  }

  unfoldable pub finalize : M Merge (Unit {0})
  unfolding copied final_callgraph final_vmap final_regset
  finalize = do
    s ← get
    saved_pcc ← copied s.curr.pcc_fixup.saved_pcc
    eret_cap ←
        if s.context.step_idx == 0
        then pure s.curr.syscall.eret_cap
        else copied s.curr.syscall.eret_cap
    modify (λ t. record t {
      context = record t.context {
        prev_regset = final_regset s.copy_vertex_map s.curr.reg_nodes;
        prev_vmap = final_vmap s.copy_vertex_map s.curr.vertex_map;
        prev_pcc_fixup = record s.curr.pcc_fixup { saved_pcc = saved_pcc };
        prev_syscall = record s.curr.syscall { eret_cap = eret_cap };
        prev_callgraph = final_callgraph s.copy_vertex_map s.curr.callgraph;
      };
    })

  -- The maps of a new MergePartialSubgraph.
  abbrev pub new_merge : Context → WorkerResult → Merge
  new_merge context result = record {
    context = context;
    curr = result;
    copy_vertex_map = λ u. none;
    omit_vertex_map = λ u. false;
    copy_edge_map = λ e. false;
    shared = λ u. none;
  }

  -- `_merge_graph_properties`
  abbrev pub merge_graph_properties : WorkerResult → Context → Context
  merge_graph_properties result c =
      if c.step_idx == 0 then record c { main = record c.main { stack = result.pgm.stack } } else c

  unfoldable pub transform : List ℕ → M Merge (Unit {0})
  unfolding examine_vertices finalize
  transform examined = do examine_vertices examined; finalize

  unfoldable pub step : (Pgm → List ℕ) → WorkerResult → M Context (Unit {0})
  unfolding transform
  step examined result c =
      elim (transform (examined result.pgm) (new_merge (merge_graph_properties result c) result)) [
        | err e ↦ err e
        | ok (a, s) ↦ ok (
          tt,
          record s.context {
            prev_cycles_end = pos result.cycles_end;
            step_idx = suc s.context.step_idx;
          },
        )
      ]

  pub mp_merge : (Pgm → List ℕ) → List WorkerResult → M Context (Unit {0})
  unfolding step
  mp_merge examined [] = pure tt
  mp_merge examined (result ∷ results) = do step examined result; mp_merge examined results
