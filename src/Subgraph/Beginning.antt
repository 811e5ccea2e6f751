-- ===== src/Subgraph/Beginning.antt =====
-- The root that `_merge_trace_beginning` makes up covers every child that it is made from.
use cheriplot.Base.{
  [], ◌∷◌, none, some, inl, inr, ℕ, ◌≡◌, refl, arith, subst, ltb, List, Among, true, ◌⊎◌, ap, ◌∙◌,
  ◌≢◌, ◌-◌, false, sym, ◌++◌, update_self, length,
}
use cheriplot.Model.Manager.{prov}
use cheriplot.Model.Vertex.{root, ProvenanceVertexData, fresh_data, initial_root}
use cheriplot.Subgraph.Roots.{
  RootFields, promote, add_root, merge_children, made_up_root, first_fields, merge_trace_beginning,
}
use cheriplot.Model.Cap.{CheriCap, empty_cap}
use cheriplot.Base.Errors.{ok}
use cheriplot.Graph.{GraphTool}
use cheriplot.Parser.State.{as_prov}
use cheriplot.Subgraph.State.{Merge, put_sub}
use cheriplot.Base.Post.{Post, done, Post-result, Post-mono, Post-if, Post-bind, Post-ok, failed}
use cheriplot.Parser.Monotone.{IsWithin}
use cheriplot.Base.Int.{pos}
use cheriplot.Subgraph.Covers.{Covered}
use cheriplot.Subgraph.Gathered.{gather-Covered, IsCovered, children-split}

module _ ⦃gt : GraphTool⦄ where
  promote-copy :
      (us : List ℕ) (s : Merge) → Post (λ _ t. t.copy_vertex_map ≡ s.copy_vertex_map) (promote us s)
  unfolding promote put_sub
  promote-copy [] s = done refl
  promote-copy (u ∷ us) s = Post-result (as_prov (s.curr.pgm.data_of u)) s _ λ d given.
      Post-mono (promote-copy us (put_sub u (prov (record d { origin = root })) s)) λ _ t h. h

  -- What holds when a vertex has been given a root.
  pub record HasRoot (s t : Merge) (u v : ℕ) : Type 0 where
    pub root_cap : CheriCap
    pub is_new : v ≡ gt.num_vertices s.context.main.graph
    pub data_of_root :
        t.context.main.data_of v
        ≡ prov (record fresh_data { cap = some root_cap; pc = some 0; origin = initial_root })
    pub valid : root_cap.valid ≡ true
    pub within :
        (w : ℕ)
        → Among w (gt.out_neighbours s.curr.pgm.graph u)
        → s.curr.pgm.layer_prov w ≡ true
        → (d : ProvenanceVertexData) × (c : CheriCap) × (s.curr.pgm.data_of w ≡ prov d)
          × (d.cap ≡ some c)
          × IsWithin root_cap c

  Covered-IsWithin :
      (f : RootFields) (c root_cap : CheriCap)
      → Covered f c
      → root_cap.base ≡ some f.base
      → root_cap.length ≡ some (f.bound - f.base)
      → root_cap.permissions ≡ some f.perms
      → IsWithin root_cap c
  Covered-IsWithin f c root_cap x b l p =
      rw (b, l, p, x.has_base, x.has_length, x.has_permissions)
        (x.above, omega (arith, x.above, x.below), omega (arith, x.bits))

  no_copy :
      (s t : Merge) (u v : ℕ)
      → t.copy_vertex_map ≡ s.copy_vertex_map
      → s.copy_vertex_map u ≡ none
      → t.copy_vertex_map u ≢ some v
  no_copy s t u v same fresh h =
      let e : t.copy_vertex_map u ≡ none = ap (λ f. f u) same ∙ fresh in cc (e, h)

  abbrev cap_of_root : RootFields → CheriCap
  cap_of_root f = record empty_cap {
    base = some f.base;
    offset = some 0;
    length = some (f.bound - f.base);
    permissions = some f.perms;
    objtype = f.otype;
    valid = true;
    sealed = false;
    t_alloc = pos 0;
  }

  copy_of_root :
      (u v : ℕ) (s : Merge) (d : ProvenanceVertexData)
      → (add_root u d s).copy_vertex_map u ≡ some v
      → v ≡ gt.num_vertices s.context.main.graph
  unfolding add_root
  copy_of_root u v s d h =
      let e =
        sym (update_self s.copy_vertex_map u (some (gt.num_vertices s.context.main.graph))) ∙ h in
      cc (e)

  -- Every child of the list is covered by the root that is added.
  add_root-HasRoot :
      (u v : ℕ) (s : Merge) (f : RootFields)
      → ((w : ℕ)
          → Among w (gt.out_neighbours s.curr.pgm.graph u)
          → s.curr.pgm.layer_prov w ≡ true
          → IsCovered f s w)
      → (add_root u (made_up_root f) s).copy_vertex_map u ≡ some v
      → HasRoot s (add_root u (made_up_root f) s) u v
  unfolding add_root made_up_root
  add_root-HasRoot u v s f covers h =
      let same = copy_of_root u v s (made_up_root f) h in
      record {
        root_cap = cap_of_root f;
        is_new = same;
        data_of_root =
            ap (λ k. (add_root u (made_up_root f) s).context.main.data_of k) same
            ∙ update_self s.context.main.data_of (gt.num_vertices s.context.main.graph)
                (prov (made_up_root f));
        valid = refl;
        within = λ w a l.
            let x = covers w a l in
            (
              x.vertex_data,
              x.capability,
              x.has_data,
              x.has_cap,
              Covered-IsWithin f x.capability (cap_of_root f) x.covered refl refl refl,
            );
      }

  merge_children-HasRoot :
      (u : ℕ) (roots others : List ℕ) (s : Merge)
      → s.copy_vertex_map u ≡ none
      → ((w : ℕ)
          → Among w (gt.out_neighbours s.curr.pgm.graph u)
          → s.curr.pgm.layer_prov w ≡ true
          → Among w roots ⊎ Among w others)
      → Post
          (λ _ t. (v : ℕ) → t.copy_vertex_map u ≡ some v → HasRoot s t u v)
          (merge_children u roots others s)
  unfolding merge_children
  merge_children-HasRoot u [] [] s fresh all =
      Post-mono (promote-copy [] s) λ _ t same v h. absurd (no_copy s t u v same fresh h)
  merge_children-HasRoot u (r ∷ rs) others s fresh all =
      Post-mono (promote-copy (r ∷ rs ++ others) s)
        λ _ t same v h. absurd (no_copy s t u v same fresh h)
  merge_children-HasRoot u [] (c ∷ cs) s fresh all =
      Post-bind (gather-Covered (c ∷ cs) first_fields s) λ f t found. done λ v h.
        subst (λ x. HasRoot s (add_root u (made_up_root f) x) u v) (sym found.0)
          (add_root-HasRoot u v s f
            (λ w a l. elim (all w a l) [ inl x ↦ absurd x | inr x ↦ found.2 w x ])
            (subst (λ x. (add_root u (made_up_root f) x).copy_vertex_map u ≡ some v) found.0 h))

  -- If the vertex of a register at the beginning of a trace has no copy yet, its merge does not raise
  -- and gives it one, then the copy is a new root in the merged graph, whose capability is valid and
  -- contains that of each child of the vertex in the provenance layer: base, end and permissions.
  pub merge_trace_beginning-HasRoot :
      (u v : ℕ) (s t : Merge)
      → s.copy_vertex_map u ≡ none
      → merge_trace_beginning u s ≡ ok (tt, t)
      → t.copy_vertex_map u ≡ some v
      → HasRoot s t u v
  unfolding merge_trace_beginning
  merge_trace_beginning-HasRoot u v s t fresh ran h =
      Post-ok tt t
        (Post-if {Q = λ _ t. (v : ℕ) → t.copy_vertex_map u ≡ some v → HasRoot s t u v}
          (ltb 0 (length (gt.in_neighbours s.curr.pgm.graph u))) _ _ s (λ entered. failed)
          (λ free.
            Post-bind (children-split (gt.out_neighbours s.curr.pgm.graph u) s) λ found x split.
              subst
                (λ y.
                  Post (λ _ t. (v : ℕ) → t.copy_vertex_map u ≡ some v → HasRoot s t u v)
                    (merge_children u found.0 found.1 y))
                (sym split.0) (merge_children-HasRoot u found.0 found.1 s fresh split.1)))
        ran v h
