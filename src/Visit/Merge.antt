-- ===== src/Visit/Merge.antt =====
-- The class MergeCfromptr of provenance/visit/vertex_merge.py.
use cheriplot.Base.{
  ℕ, Bool, true, false, none, some, if◌then◌else◌, Dict, List, update, ◌∷◌, insert, [], ◌+◌, ◌++◌,
  length,
}
use cheriplot.Model.Vertex.{CheriNodeOrigin, ProvenanceVertexData, setbounds, ptr_setbounds}
use cheriplot.Base.Int.{ℤ, ltb_ℤ, int_eq, negsuc}
use cheriplot.Graph.{GraphTool}
use cheriplot.Base.Errors.{
  Result, M, err, pure, ◌>>=◌, attribute_error, get, ok, or_raise, gets, type_error, ◌>>◌, modify,
  of_result,
}
use cheriplot.Visit.State.{Visit, put_mask, prov_data, in_prov}
use cheriplot.Visit.Base.{mask_visit, GraphVisit, ignore}
use cheriplot.Model.Manager.{prov}
use cheriplot.Visit.Filters.{is_fromptr}

abbrev pub is_setbounds : CheriNodeOrigin → Bool
is_setbounds setbounds = true
is_setbounds _ = false

abbrev max_ℤ : ℤ → ℤ → ℤ
max_ℤ a b = if ltb_ℤ a b then b else a

abbrev min_ℤ : ℤ → ℤ → ℤ
min_ℤ a b = if ltb_ℤ b a then b else a

-- The time at which the merged capability is freed.
unfoldable pub merged_free : ℤ → ℤ → ℤ
merged_free u_free p_free =
    if int_eq (min_ℤ u_free p_free) (negsuc 0) then negsuc 0 else max_ℤ u_free p_free

-- `dict(chain(p_mem, u_mem))`, where the indices of the second move by `delta`.
unfoldable pub merged_memory : ℕ → Dict ℕ → Dict ℕ → Dict ℕ
merged_memory delta p_mem [] = p_mem
merged_memory delta p_mem ((k, idx) ∷ u_mem) =
    merged_memory delta (insert k (idx + delta) p_mem) u_mem

-- The data of the merged vertex.
unfoldable pub merged_data :
    ProvenanceVertexData → ProvenanceVertexData → Result ProvenanceVertexData
unfolding merged_free merged_memory
merged_data p u = elim u.cap [
  | none ↦ err attribute_error
  | some uc ↦ elim p.cap [
    | none ↦ err attribute_error
    | some pc ↦ ok (record {
      events = p.events ++ u.events;
      cap = some (record uc { t_free = merged_free uc.t_free pc.t_free });
      origin = ptr_setbounds;
      pc = u.pc;
      is_kernel = u.is_kernel;
      active_memory = merged_memory (length p.events) p.active_memory u.active_memory;
    })
  ]
]

module _ ⦃gt : GraphTool⦄ where
  -- `for w in p.in_neighbours(): graph.add_edge(w, v)`
  unfoldable pub add_parents : ℕ → List ℕ → Visit → Visit
  add_parents v [] s = s
  add_parents v (w ∷ ws) s =
      add_parents v ws (record s { pgm = record s.pgm { graph = gt.add_edge s.pgm.graph w v } })

  -- An edge from the merged vertex with the data of the edge `f`.
  unfoldable pub add_child : ℕ → ℕ → ℕ → Visit → Visit
  add_child v w f s =
      let e = gt.num_edges s.pgm.graph in
      record s {
        pgm = record s.pgm {
          graph = gt.add_edge s.pgm.graph v w;
          edge_time = update s.pgm.edge_time e (s.pgm.edge_time f);
          edge_addr = update s.pgm.edge_addr e (s.pgm.edge_addr f);
          edge_operation = update s.pgm.edge_operation e (s.pgm.edge_operation f);
          edge_regs = update s.pgm.edge_regs e (s.pgm.edge_regs f);
        };
      }

  -- `for w in u.out_neighbours()`: there is an edge to each of them.
  unfoldable pub add_children : ℕ → ℕ → List ℕ → M Visit (Unit {0})
  unfolding add_child
  add_children u v [] = pure tt
  add_children u v (w ∷ ws) = do
    s ← get
    f ← or_raise (gt.edge_between s.pgm.graph u w) type_error
    modify (add_child v w f)
    add_children u v ws

  -- The last assignments of `_make_merged`.
  unfoldable pub finish_merged : ℕ → ℕ → ℕ → ProvenanceVertexData → Visit → Visit
  finish_merged p u v d s = put_mask u false (
      put_mask p false (
        put_mask v true (record s {
          pgm = record s.pgm {
            data_of = update s.pgm.data_of v (prov d);
            layer_prov = update s.pgm.layer_prov v true;
          };
        })))

  -- `_make_merged`: the vertex, its data, the edges in and out.
  unfoldable pub make_merged : ℕ → ℕ → M Visit (Unit {0})
  unfolding merged_data add_parents add_children finish_merged
  make_merged p u = do
    p_data ← prov_data p
    u_data ← prov_data u
    v ← gets (λ s. gt.num_vertices s.pgm.graph)
    modify (λ s. record s { pgm = record s.pgm { graph = gt.add_vertex s.pgm.graph } })
    d ← of_result (merged_data p_data u_data)
    s ← get
    modify (add_parents v (gt.in_neighbours s.pgm.graph p))
    t ← get
    add_children u v (gt.out_neighbours t.pgm.graph u)
    modify (finish_merged p u v d)

  unfoldable pub merge_edge : ℕ → M Visit (Unit {0})
  unfolding make_merged
  merge_edge e = do
    s ← get
    let src = gt.source s.pgm.graph e
    let dst = gt.target s.pgm.graph e
    if in_prov e s
        then (do
          src_data ← prov_data src
          if is_fromptr src_data.origin
              then (do
                dst_data ← prov_data dst
                if is_setbounds dst_data.origin then make_merged src dst else pure tt)
              else pure tt)
        else pure tt

  unfoldable pub merge_cfromptr : GraphVisit
  unfolding mask_visit merge_edge
  merge_cfromptr = mask_visit ignore merge_edge
