-- ===== src/Subgraph/Roots.antt =====
-- The root that is made up for a register at the beginning of a trace: `_merge_trace_beginning` of
-- MergePartialSubgraph.
use cheriplot.Model.Vertex.{root, ProvenanceVertexData, fresh_data, initial_root, is_root}
use cheriplot.Base.{
  ℕ, ◌-◌, ◌+◌, ◌^◌, true, Option, none, some, List, [], ◌∷◌, ◌++◌, if◌then◌else◌, update, bit_or,
  ltb, false, length,
}
use cheriplot.Model.Cap.{CheriCap, empty_cap}
use cheriplot.Graph.{GraphTool}
use cheriplot.Base.Errors.{
  Result, M, err, pure, ok, ◌>>◌, ◌>>=◌, type_error, get, modify, of_result, raise, subgraph_merge,
}
use cheriplot.Subgraph.State.{Merge, put_copy, sub_prov, put_main, put_sub}
use cheriplot.Base.Int.{pos}
use cheriplot.Model.Manager.{prov}
use cheriplot.Parser.State.{as_cap}

-- What the loop over the children collects for the root that it makes up.
pub record RootFields : Type 0 where
  pub base : ℕ
  pub bound : ℕ
  pub perms : ℕ
  pub otype : Option ℕ

abbrev pub first_fields : RootFields
first_fields = record { base = 2 ^ 64; bound = 0; perms = 0; otype = none }

abbrev min : ℕ → ℕ → ℕ
min a b = if ltb b a then b else a

abbrev max : ℕ → ℕ → ℕ
max a b = if ltb a b then b else a

-- None takes part in no comparison, sum or union of bits.
unfoldable pub add_fields : RootFields → CheriCap → Result RootFields
add_fields f c = elim c.base [
  | none ↦ err type_error
  | some base ↦ elim c.length [
    | none ↦ err type_error
    | some length ↦ elim c.permissions [
      | none ↦ err type_error
      | some permissions ↦ ok (record {
        base = min f.base base;
        bound = max f.bound (base + length);
        perms = bit_or f.perms permissions;
        otype = c.objtype;
      })
    ]
  ]
]

-- The data of the root.
unfoldable pub made_up_root : RootFields → ProvenanceVertexData
made_up_root f = record fresh_data {
  cap = some (record empty_cap {
    base = some f.base;
    offset = some 0;
    length = some (f.bound - f.base);
    permissions = some f.perms;
    objtype = f.otype;
    valid = true;
    sealed = false;
    t_alloc = pos 0;
  });
  pc = some 0;
  origin = initial_root;
}

module _ ⦃gt : GraphTool⦄ where
  -- The children of the provenance layer: those that are roots, and the others.
  unfoldable pub children : List ℕ → M Merge (List ℕ × List ℕ)
  children [] = pure ([], [])
  children (u_out ∷ us) = do
    s ← get
    if s.curr.pgm.layer_prov u_out
        then (do
          d ← sub_prov u_out
          rest ← children us
          if is_root d.origin then pure (u_out ∷ rest.0, rest.1) else pure (rest.0, u_out ∷ rest.1))
        else children us

  unfoldable pub gather : List ℕ → RootFields → M Merge RootFields
  unfolding add_fields
  gather [] f = pure f
  gather (u_out ∷ us) f = do
    d ← sub_prov u_out
    c ← of_result (as_cap d.cap)
    g ← of_result (add_fields f c)
    gather us g

  -- The origin of each child becomes ROOT.
  unfoldable pub promote : List ℕ → M Merge (Unit {0})
  promote [] = pure tt
  promote (u_out ∷ us) = do
    d ← sub_prov u_out
    modify (put_sub u_out (prov (record d { origin = root })))
    promote us

  -- The root is added to the merged graph, and stands for the vertex.
  unfoldable pub add_root : ℕ → ProvenanceVertexData → Merge → Merge
  add_root u d s =
      let main = s.context.main in
      let v = gt.num_vertices main.graph in
      put_copy u (some v) (
        put_main
          (record main {
            graph = gt.add_vertex main.graph;
            data_of = update main.data_of v (prov d);
            layer_prov = update main.layer_prov v true;
          })
          s)

  unfoldable pub merge_children : ℕ → List ℕ → List ℕ → M Merge (Unit {0})
  unfolding gather promote made_up_root add_root
  merge_children u [] (c ∷ cs) = do
    f ← gather (c ∷ cs) first_fields
    modify (add_root u (made_up_root f))
  merge_children u roots other = promote (roots ++ other)

  unfoldable pub merge_trace_beginning : ℕ → M Merge (Unit {0})
  unfolding children merge_children
  merge_trace_beginning u = do
    s ← get
    if ltb 0 (length (gt.in_neighbours s.curr.pgm.graph u)) then raise subgraph_merge else (do
      found ← children (gt.out_neighbours s.curr.pgm.graph u)
      merge_children u found.0 found.1)
