-- ===== src/Subgraph/Copy.antt =====
-- Times, capabilities and the copy of one vertex of the subgraph with its edges:
-- `_update_time`, `_check_cap_compatible`, `_merge_partial_vertex_data`, `_merge_edge_data`,
-- `_merge_layer` and `_merge_subgraph_vertex`.
use cheriplot.Base.{
  ℕ, Bool, true, ◌&&◌, none, some, List, [], ◌∷◌, ◌++◌, map, ◌==◌, if◌then◌else◌, opt_eq, update,
  false,
}
use cheriplot.Base.Int.{ℤ, pos, ◌+ℤ◌, ◌-ℤ◌, ltb_ℤ, abs, pos_part}
use cheriplot.Model.Vertex.{Event, ProvenanceVertexData, CallVertexData, is_root}
use cheriplot.Model.Cap.{CheriCap}
use cheriplot.Graph.{GraphTool}
use cheriplot.Base.Errors.{M, ◌>>◌, ◌>>=◌, get, modify, of_result, pure}
use cheriplot.Subgraph.State.{Merge, put_main, sub_prov, put_sub, main_prov}
use cheriplot.Model.Manager.{VertexData, prov, set_data}
use cheriplot.Parser.State.{as_call, as_cap}

-- `abs(prev_cycles_end - curr_cycles_start) - 1`
unfoldable pub time_delta : ℤ → ℕ → ℤ
unfolding abs ◌-ℤ◌
time_delta prev_cycles_end curr_cycles_start =
    pos (abs (prev_cycles_end -ℤ pos curr_cycles_start)) -ℤ pos 1

-- The times of a table of events are natural numbers.
abbrev pub shift_event : ℤ → Event → Event
shift_event delta e = record e { time = pos_part (pos e.time +ℤ delta) }

unfoldable pub shift_cap : ℤ → CheriCap → CheriCap
shift_cap delta c = record c {
  t_alloc = c.t_alloc +ℤ delta;
  t_free = if ltb_ℤ c.t_free (pos 0) then c.t_free else c.t_free +ℤ delta;
}

unfoldable pub shift_data : ℤ → ProvenanceVertexData → ProvenanceVertexData
unfolding shift_cap
shift_data delta d = record d {
  events = map (shift_event delta) d.events;
  cap = elim d.cap [ none ↦ none | some c ↦ some (shift_cap delta c) ];
}

-- The TypeError for a `t_return` of None is caught.
unfoldable pub shift_call : ℤ → CallVertexData → CallVertexData
shift_call delta d = record d {
  t_return = elim d.t_return [ none ↦ none | some t ↦ some (pos_part (pos t +ℤ delta)) ];
}

-- `_check_cap_compatible`
unfoldable pub is_compatible : CheriCap → CheriCap → Bool
is_compatible u v =
    opt_eq u.base v.base
    && (opt_eq u.length v.length
        && (opt_eq u.permissions v.permissions && opt_eq u.objtype v.objtype))

module _ ⦃gt : GraphTool⦄ where
  unfoldable pub update_time : ℕ → M Merge (Unit {0})
  unfolding time_delta shift_data shift_call
  update_time u = do
    s ← get
    let delta = time_delta s.context.prev_cycles_end s.curr.cycles_start
    if s.curr.pgm.layer_prov u
        then (do d ← sub_prov u; modify (put_sub u (prov (shift_data delta d))))
        else if s.curr.pgm.layer_call u
        then (do
          d ← of_result (as_call (s.curr.pgm.data_of u))
          modify (put_sub u (VertexData.call (shift_call delta d))))
        else pure tt

  -- The vertex `v` of the merged graph takes the free time and the events of `u`.
  unfoldable pub merge_partial_vertex_data : ℕ → ℕ → M Merge (Unit {0})
  unfolding update_time
  merge_partial_vertex_data u v = do
    update_time u
    u_data ← sub_prov u
    v_data ← main_prov v
    u_cap ← of_result (as_cap u_data.cap)
    v_cap ← of_result (as_cap v_data.cap)
    modify (λ s.
        put_main
          (set_data v
            (prov (record v_data {
              cap = some (record v_cap { t_free = u_cap.t_free });
              events = v_data.events ++ u_data.events;
            }))
            s.context.main)
          s)

  -- An edge of the merged graph with the data of the edge `e` of the subgraph.
  unfoldable pub add_merged_edge : ℕ → ℕ → ℕ → Merge → Merge
  add_merged_edge e source target s =
      let main = s.context.main in
      let sub = s.curr.pgm in
      let f = gt.num_edges main.graph in
      put_main
        (record main {
          graph = gt.add_edge main.graph source target;
          edge_time = update main.edge_time f (sub.edge_time e);
          edge_addr = update main.edge_addr f (sub.edge_addr e);
          edge_operation = update main.edge_operation f (sub.edge_operation e);
          edge_regs = update main.edge_regs f (sub.edge_regs e);
        })
        s

  -- The vertex that `_merge_subgraph_vertex` adds, behind `_update_time`.
  unfoldable pub add_copy : ℕ → Merge → Merge
  add_copy u s =
      let main = s.context.main in
      let sub = s.curr.pgm in
      let v = gt.num_vertices main.graph in
      record (put_main
        (record main {
          graph = gt.add_vertex main.graph;
          data_of = update main.data_of v (sub.data_of u);
          layer_prov = update main.layer_prov v (sub.layer_prov u);
          layer_call = update main.layer_call v (sub.layer_call u);
        })
        s) {
          copy_vertex_map = update s.copy_vertex_map u (some v);
          shared = update s.shared u (some v);
        }

  -- No edge is copied into a root of the provenance layer.
  abbrev pub is_prov_root : VertexData → Bool
  is_prov_root (prov d) = is_root d.origin
  is_prov_root _ = false

  -- The edge of the subgraph is taken, with its ends where they were copied.
  unfoldable pub copy_edge : ℕ → ℕ → ℕ → ℕ → Merge → Merge
  unfolding add_merged_edge
  copy_edge u e source target s =
      let s' = record s { copy_edge_map = update s.copy_edge_map e true } in
      if u == gt.source s.curr.pgm.graph e
      then add_merged_edge e source target s'
      else if s.curr.pgm.layer_prov u && is_prov_root (s.curr.pgm.data_of u)
      then s'
      else add_merged_edge e source target s'

  -- One round of the loop over `u.all_edges()`: an edge that was copied, or of which an end has no
  -- copy, is skipped.
  unfoldable pub merge_edge : ℕ → ℕ → Merge → Merge
  unfolding copy_edge
  merge_edge u e s =
      if s.copy_edge_map e then s else elim (s.copy_vertex_map (gt.target s.curr.pgm.graph e)) [
        | none ↦ s
        | some target ↦ elim (s.copy_vertex_map (gt.source s.curr.pgm.graph e)) [
          | none ↦ s
          | some source ↦ copy_edge u e source target s
        ]
      ]

  unfoldable pub merge_edges : ℕ → List ℕ → Merge → Merge
  unfolding merge_edge
  merge_edges u [] s = s
  merge_edges u (e ∷ es) s = merge_edges u es (merge_edge u e s)

  -- `_merge_subgraph_vertex`: the time first, since the data is shared from then on. The data of a
  -- vertex of the provenance layer was read by `_update_time`.
  unfoldable pub merge_subgraph_vertex : ℕ → M Merge (Unit {0})
  unfolding update_time add_copy merge_edges
  merge_subgraph_vertex u = do
    update_time u
    modify (add_copy u)
    modify (λ s. merge_edges u (gt.all_edges s.curr.pgm.graph u) s)
