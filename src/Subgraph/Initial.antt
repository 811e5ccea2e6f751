-- ===== src/Subgraph/Initial.antt =====
-- The vertices of the initial register set: `_merge_initial_vertex` of MergePartialSubgraph and what
-- it calls.
use cheriplot.Model.EventType
use cheriplot.Model.Vertex.{Event, has_flag, is_root}
use cheriplot.Base.{
  ℕ, Bool, true, ◌||◌, Option, none, some, List, [], ◌∷◌, ◌==◌, if◌then◌else◌, update, Dict, suc,
  false, length, lookup, get_elem?,
}
use cheriplot.Graph.{GraphTool}
use cheriplot.Base.Errors.{
  M, pure, ◌>>◌, ◌>>=◌, get, modify, of_result, raise, or_raise, subgraph_merge, missing_parent,
  when, value_error, index_error,
}
use cheriplot.Subgraph.State.{Merge, put_copy, sub_prov, main_prov}
use cheriplot.Subgraph.Copy.{merge_partial_vertex_data, is_compatible}
use cheriplot.Parser.State.{as_cap}
use cheriplot.Subgraph.Roots.{merge_trace_beginning}

-- The first key whose value is the vertex.
abbrev pub key_of : ℕ → Dict ℕ → Option ℕ
key_of u [] = none
key_of u ((key, val) ∷ entries) = let rest = key_of u entries in if val == u then some key else rest

-- The entry of a key, where there is one.
abbrev pub at_key : Dict ℕ → Option ℕ → Option ℕ
at_key entries none = none
at_key entries (some key) = lookup key entries

-- `list.index(u)`
abbrev pub index_in : ℕ → List ℕ → Option ℕ
index_in u [] = none
index_in u (v ∷ vs) =
    let rest = index_in u vs in
    if u == v then some 0 else elim rest [ none ↦ none | some i ↦ some (suc i) ]

abbrev pub has_deref : List Event → Bool
has_deref [] = false
has_deref (e ∷ es) = let rest = has_deref es in has_flag e.type EventType.deref_mask || rest

module _ ⦃gt : GraphTool⦄ where
  -- Every child must be a root.
  unfoldable pub check_roots : List ℕ → M Merge (Unit {0})
  check_roots [] = pure tt
  check_roots (u_out ∷ us) = do
    d ← sub_prov u_out
    if is_root d.origin then check_roots us else raise missing_parent

  unfoldable pub merge_initial_vertex_to_none : ℕ → M Merge (Unit {0})
  unfolding check_roots
  merge_initial_vertex_to_none u = do
    d ← sub_prov u
    s ← get
    if has_deref d.events
        then raise subgraph_merge
        else check_roots (gt.out_neighbours s.curr.pgm.graph u)

  -- `self.subgraph.add_edge(u, w)` for the children of a root that is left out.
  unfoldable pub adopt : ℕ → List ℕ → Merge → Merge
  adopt u [] s = s
  adopt u (w ∷ ws) s = adopt u ws (record s {
    curr = record s.curr { pgm = record s.curr.pgm { graph = gt.add_edge s.curr.pgm.graph u w } };
  })

  -- A child that is a root: it gives its events to the parent, and is left out if the two agree.
  unfoldable pub suppress_root : ℕ → ℕ → ℕ → M Merge (Unit {0})
  unfolding merge_partial_vertex_data is_compatible adopt
  suppress_root u v u_out = do
    merge_partial_vertex_data u_out v
    u_out_data ← sub_prov u_out
    v_data ← main_prov v
    u_cap ← of_result (as_cap u_out_data.cap)
    v_cap ← of_result (as_cap v_data.cap)
    s ← get
    when (is_compatible u_cap v_cap) (
        modify (λ t.
          adopt u (gt.out_neighbours s.curr.pgm.graph u_out)
            (record t { omit_vertex_map = update t.omit_vertex_map u_out true })))

  -- The children that the vertex has before the loop.
  unfoldable pub suppress_roots : ℕ → ℕ → List ℕ → M Merge (Unit {0})
  unfolding suppress_root
  suppress_roots u v [] = pure tt
  suppress_roots u v (u_out ∷ us) = do
    d ← sub_prov u_out
    s ← get
    if length (gt.in_neighbours s.curr.pgm.graph u_out) == 1
        then (do when (is_root d.origin) (suppress_root u v u_out); suppress_roots u v us)
        else raise subgraph_merge

  unfoldable pub merge_initial_vertex_to_prev : ℕ → ℕ → M Merge (Unit {0})
  unfolding merge_partial_vertex_data suppress_roots
  merge_initial_vertex_to_prev u v = do
    modify (put_copy u (some v))
    merge_partial_vertex_data u v
    s ← get
    suppress_roots u v (gt.out_neighbours s.curr.pgm.graph u)

  unfoldable pub merge_initial_vertex : ℕ → M Merge (Unit {0})
  unfolding merge_trace_beginning merge_initial_vertex_to_none merge_initial_vertex_to_prev
  merge_initial_vertex u = do
    s ← get
    if s.context.step_idx == 0 then merge_trace_beginning u else (do
      index ← or_raise (index_in u s.curr.initial_reg_nodes) value_error
      prev ← or_raise (get_elem? s.context.prev_regset index) index_error
      elim prev as (λ _. M Merge (Unit {0})) [
        | none ↦ merge_initial_vertex_to_none u
        | some v ↦ merge_initial_vertex_to_prev u v
      ])
