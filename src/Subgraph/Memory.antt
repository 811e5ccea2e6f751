-- ===== src/Subgraph/Memory.antt =====
-- The vertices of the initial memory map, and those that the subparsers mark:
-- `_merge_initial_mem_vertex`, `_merge_pcc_fixup`, `_merge_syscall` and `_merge_callgraph` of
-- MergePartialSubgraph.
use cheriplot.Model.Vertex.{is_partial}
use cheriplot.Base.{
  ℕ, ◌+◌, Bool, ◌&&◌, ◌||◌, Option, none, some, ◌==◌, if◌then◌else◌, opt_eq, ltb, false, length,
  set,
}
use cheriplot.Graph.{GraphTool}
use cheriplot.Base.Errors.{
  Result, M, err, pure, ok, ◌>>◌, ◌>>=◌, type_error, get, modify, of_result, raise, or_raise, check,
  subgraph_merge, value_error, not_implemented, assertion, index_error,
}
use cheriplot.Subgraph.State.{Merge, put_copy, sub_prov, main_prov}
use cheriplot.Subgraph.Copy.{merge_partial_vertex_data, merge_subgraph_vertex, is_compatible}
use cheriplot.Parser.State.{as_cap}
use cheriplot.Subgraph.Initial.{at_key, index_in, key_of}

module _ ⦃gt : GraphTool⦄ where
  unfoldable pub merge_initial_mem_vertex : ℕ → M Merge (Unit {0})
  unfolding merge_subgraph_vertex is_compatible merge_partial_vertex_data
  merge_initial_mem_vertex u = do
    s ← get
    elim (at_key s.context.prev_vmap (key_of u s.curr.initial_map)) as (λ _. M Merge (Unit {0})) [
      | none ↦ merge_subgraph_vertex u
      | some v ↦ do
        u_data ← sub_prov u
        v_data ← main_prov v
        u_cap ← of_result (as_cap u_data.cap)
        v_cap ← of_result (as_cap v_data.cap)
        if is_compatible u_cap v_cap
            then (do modify (put_copy u (some v)); merge_partial_vertex_data u v)
            else raise subgraph_merge
    ]

  -- `badvaddr == addr or badvaddr == addr + 4`, where None has no sum.
  unfoldable pub is_branch_fault : Option ℕ → Option ℕ → Result Bool
  is_branch_fault none none = ok false
  is_branch_fault (some b) none = err type_error
  is_branch_fault none (some a) = ok false
  is_branch_fault (some b) (some a) = ok (b == a || b == a + 4)

  unfoldable pub merge_pcc_fixup : ℕ → M Merge (Unit {0})
  unfolding is_branch_fault
  merge_pcc_fixup u = do
    s ← get
    let prev = s.context.prev_pcc_fixup
    fault ← of_result (is_branch_fault s.curr.pcc_fixup.badvaddr prev.saved_addr)
    if fault
        then (do
          d ← sub_prov u
          if is_partial d.origin
              then (do
                index ← or_raise (index_in u s.curr.initial_reg_nodes) value_error
                check (ltb index (length s.context.prev_regset)) index_error
                modify (λ t. record t {
                  context = record t.context {
                    prev_regset = set t.context.prev_regset index prev.saved_pcc;
                  };
                }))
              else raise subgraph_merge)
        else pure tt

  unfoldable pub merge_syscall : ℕ → M Merge (Unit {0})
  merge_syscall u = do
    s ← get
    if s.context.prev_syscall.active
          && opt_eq s.context.prev_syscall.pc_eret s.curr.syscall.eret_addr
        then raise not_implemented
        else pure tt

  -- An entry of the map takes no None.
  unfoldable pub merge_callgraph : ℕ → M Merge (Unit {0})
  merge_callgraph u = do
    s ← get
    check (s.curr.pgm.layer_call u) assertion
    v ← or_raise s.context.prev_callgraph.last_frame type_error
    modify (put_copy u v)
