-- ===== src/Subgraph/Kept.antt =====
-- The merge of the initial vertices keeps the invariant of Subgraph/Image.
use cheriplot.Base.{
  [], ◌∷◌, ◌++◌, some, inr, ℕ, refl, List, Among, ◌==◌, ltb, length, Option, true, update,
  update_ne, ap, get_elem?,
}
use cheriplot.Model.Vertex.{is_root, ProvenanceVertexData}
use cheriplot.Graph.{GraphTool}
use cheriplot.Subgraph.State.{Merge, put_copy}
use cheriplot.Model.Manager.{Pgm}
use cheriplot.Subgraph.Copy.{merge_subgraph_vertex, is_compatible}
use cheriplot.Subgraph.Roots.{
  add_root, merge_children, merge_trace_beginning, first_fields, made_up_root,
}
use cheriplot.Subgraph.Initial.{
  index_in, adopt, suppress_root, suppress_roots, merge_initial_vertex,
  merge_initial_vertex_to_none, merge_initial_vertex_to_prev, has_deref, at_key, key_of,
}
use cheriplot.Subgraph.Memory.{merge_initial_mem_vertex, merge_callgraph}
use cheriplot.Subgraph.Image.{shape_of, IsMerged-add_vertex, IsMerged-put_copy, IsMerged-adopt}
use cheriplot.Base.Post.{
  Post, Post-if, Post-bind, done, Post-result, failed, Post-mono, Post-option, Post-check,
  Post-when, Post-cases,
}
use cheriplot.Parser.State.{as_prov, as_cap}
use cheriplot.Base.Errors.{value_error, index_error, assertion, type_error}
use cheriplot.Subgraph.Gathered.{gather-Covered, children-split}
use cheriplot.Subgraph.Unchanged.{
  Good, SameShape, merge_partial-shape, keep_shape, promote-shape, check_roots-shape,
}
use cheriplot.Subgraph.Copied.{Examined, merge_subgraph_vertex-Good}

module _ ⦃gt : GraphTool⦄ where
  -- A vertex more that was examined, with nothing copied.
  pub Good-more :
      (old : Pgm) (examined : List ℕ) (u : ℕ) (s : Merge)
      → Good old examined s
      → Good old (u ∷ examined) s
  Good-more old examined u s m = record {
    more_vertices = m.more_vertices;
    more_edges = m.more_edges;
    kept_source = m.kept_source;
    kept_target = m.kept_target;
    kept_prov = m.kept_prov;
    kept_call = m.kept_call;
    images = m.images;
    copied = λ w v h. inr (m.copied w v h);
  }

  pub put_copy-Good :
      (old : Pgm) (examined : List ℕ) (u : ℕ) (v : Option ℕ) (s : Merge)
      → ¬ Among u examined
      → Good old examined s
      → Good old (u ∷ examined) (put_copy u v s)
  put_copy-Good old examined u v s fresh m = IsMerged-put_copy old examined (shape_of s) u v fresh m

  pub add_root-Good :
      (old : Pgm) (examined : List ℕ) (u : ℕ) (d : ProvenanceVertexData) (s : Merge)
      → ¬ Among u examined
      → Good old examined s
      → Good old (u ∷ examined) (add_root u d s)
  unfolding add_root
  add_root-Good old examined u d s fresh m =
      let n = gt.num_vertices s.context.main.graph in
      let added =
        IsMerged-add_vertex old examined (shape_of s) (update s.context.main.layer_prov n true)
          s.context.main.layer_call (λ v h. update_ne s.context.main.layer_prov n v true h)
          (λ v h. refl) m in
      IsMerged-put_copy old examined _ u (some n) fresh added

  pub same-Examined :
      (old : Pgm) (examined : List ℕ) (u : ℕ) (s : Merge)
      → Good old examined s
      → (a : Unit {0}) (t : Merge) → SameShape s a t
      → Examined old examined u a t
  same-Examined old examined u s m a t same =
      Good-more old examined u t (keep_shape old examined s t same m)

  pub merge_children-Good :
      (old : Pgm) (examined : List ℕ) (u : ℕ) (roots others : List ℕ) (s : Merge)
      → ¬ Among u examined
      → Good old examined s
      → Post (Examined old examined u) (merge_children u roots others s)
  unfolding merge_children
  merge_children-Good old examined u [] [] s fresh m =
      Post-mono (promote-shape [] s) (same-Examined old examined u s m)
  merge_children-Good old examined u (r ∷ rs) others s fresh m =
      Post-mono (promote-shape (r ∷ rs ++ others) s) (same-Examined old examined u s m)
  merge_children-Good old examined u [] (c ∷ cs) s fresh m =
      Post-bind (gather-Covered (c ∷ cs) first_fields s) λ f t found. done (
        add_root-Good old examined u (made_up_root f) t fresh
          (keep_shape old examined s t (ap shape_of found.0) m))

  pub merge_trace_beginning-Good :
      (old : Pgm) (examined : List ℕ) (u : ℕ) (s : Merge)
      → ¬ Among u examined
      → Good old examined s
      → Post (Examined old examined u) (merge_trace_beginning u s)
  unfolding merge_trace_beginning
  merge_trace_beginning-Good old examined u s fresh m =
      Post-if (ltb 0 (length (gt.in_neighbours s.curr.pgm.graph u))) _ _ s (λ entered. failed)
        (λ free.
          Post-bind (children-split (gt.out_neighbours s.curr.pgm.graph u) s) λ found t split.
            merge_children-Good old examined u found.0 found.1 t fresh
              (keep_shape old examined s t (ap shape_of split.0) m))

  pub adopt-Good :
      (old : Pgm) (examined : List ℕ) (u : ℕ) (ws : List ℕ) (s : Merge)
      → Good old examined s
      → Good old examined (adopt u ws s)
  unfolding adopt
  adopt-Good old examined u [] s m = m
  adopt-Good old examined u (w ∷ ws) s m =
      adopt-Good old examined u ws _ (IsMerged-adopt old examined (shape_of s) u w m)

  pub suppress_root-Good :
      (old : Pgm) (examined : List ℕ) (u v u_out : ℕ) (s : Merge)
      → Good old examined s
      → Post (λ _ t. Good old examined t) (suppress_root u v u_out s)
  unfolding suppress_root
  suppress_root-Good old examined u v u_out s m =
      Post-bind (merge_partial-shape u_out v s) λ _ t same.
        let kept = keep_shape old examined s t same m in
        Post-result (as_prov (t.curr.pgm.data_of u_out)) t _ λ u_data e1.
          Post-result (as_prov (t.context.main.data_of v)) t _ λ v_data e2.
            Post-result (as_cap u_data.cap) t _ λ u_cap e3.
              Post-result (as_cap v_data.cap) t _ λ v_cap e4.
                Post-when (is_compatible u_cap v_cap) _ t
                  (λ c. done (
                    adopt-Good old examined u (gt.out_neighbours t.curr.pgm.graph u_out)
                      (record t { omit_vertex_map = update t.omit_vertex_map u_out true }) kept))
                  kept

  pub suppress_roots-Good :
      (old : Pgm) (examined : List ℕ) (u v : ℕ) (us : List ℕ) (s : Merge)
      → Good old examined s
      → Post (λ _ t. Good old examined t) (suppress_roots u v us s)
  unfolding suppress_roots
  suppress_roots-Good old examined u v [] s m = done m
  suppress_roots-Good old examined u v (u_out ∷ us) s m =
      Post-result (as_prov (s.curr.pgm.data_of u_out)) s _ λ d e.
        Post-if (length (gt.in_neighbours s.curr.pgm.graph u_out) == 1) _ _ s
          (λ one.
            Post-bind
              (Post-when {Q = λ _ t. Good old examined t} (is_root d.origin)
                (suppress_root u v u_out) s (λ r. suppress_root-Good old examined u v u_out s m) m)
              λ _ t kept. suppress_roots-Good old examined u v us t kept)
          (λ other. failed)

  pub merge_initial_vertex-Good :
      (old : Pgm) (examined : List ℕ) (u : ℕ) (s : Merge)
      → ¬ Among u examined
      → Good old examined s
      → Post (Examined old examined u) (merge_initial_vertex u s)
  unfolding merge_initial_vertex merge_initial_vertex_to_none merge_initial_vertex_to_prev
  merge_initial_vertex-Good old examined u s fresh m =
      Post-if (s.context.step_idx == 0) _ _ s
        (λ first. merge_trace_beginning-Good old examined u s fresh m)
        (λ later. Post-option (index_in u s.curr.initial_reg_nodes) value_error s _ λ index e1.
          Post-option (get_elem? s.context.prev_regset index) index_error s _ λ prev e2.
            Post-cases prev (merge_initial_vertex_to_none u) (merge_initial_vertex_to_prev u) s
              (λ missing. Post-result (as_prov (s.curr.pgm.data_of u)) s _ λ d e3.
                Post-if (has_deref d.events) _ _ s (λ deref. failed)
                  (λ clean.
                    Post-mono (check_roots-shape (gt.out_neighbours s.curr.pgm.graph u) s)
                      (same-Examined old examined u s m)))
              (λ v found. Post-bind (merge_partial-shape u v (put_copy u (some v) s)) λ _ t same.
                suppress_roots-Good old (u ∷ examined) u v (gt.out_neighbours t.curr.pgm.graph u) t
                  (keep_shape old (u ∷ examined) (put_copy u (some v) s) t same
                    (put_copy-Good old examined u (some v) s fresh m))))

  pub merge_initial_mem_vertex-Good :
      (old : Pgm) (examined : List ℕ) (u : ℕ) (s : Merge)
      → ¬ Among u examined
      → Good old examined s
      → Post (Examined old examined u) (merge_initial_mem_vertex u s)
  unfolding merge_initial_mem_vertex
  merge_initial_mem_vertex-Good old examined u s fresh m =
      let same_key = at_key s.context.prev_vmap (key_of u s.curr.initial_map) in
      Post-cases same_key (merge_subgraph_vertex u) _ s
        (λ missing. merge_subgraph_vertex-Good old examined u s fresh m)
        (λ v found. Post-result (as_prov (s.curr.pgm.data_of u)) s _ λ u_data e1.
          Post-result (as_prov (s.context.main.data_of v)) s _ λ v_data e2.
            Post-result (as_cap u_data.cap) s _ λ u_cap e3.
              Post-result (as_cap v_data.cap) s _ λ v_cap e4.
                Post-if (is_compatible u_cap v_cap) _ _ s
                  (λ agree. Post-mono (merge_partial-shape u v (put_copy u (some v) s)) λ _ t same.
                    keep_shape old (u ∷ examined) (put_copy u (some v) s) t same
                      (put_copy-Good old examined u (some v) s fresh m))
                  (λ clash. failed))

  pub merge_callgraph-Good :
      (old : Pgm) (examined : List ℕ) (u : ℕ) (s : Merge)
      → ¬ Among u examined
      → Good old examined s
      → Post (Examined old examined u) (merge_callgraph u s)
  unfolding merge_callgraph
  merge_callgraph-Good old examined u s fresh m =
      Post-check (s.curr.pgm.layer_call u) assertion s _ λ c.
        Post-option s.context.prev_callgraph.last_frame type_error s _
          λ v e. done (put_copy-Good old examined u v s fresh m)
