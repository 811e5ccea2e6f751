-- ===== src/Subgraph/Unchanged.antt =====
-- The methods of MergePartialSubgraph that change data only, and leave the shape of the two graphs.
use cheriplot.Base.{
  [], ◌∷◌, inl, inr, ℕ, ◌≡◌, refl, List, subst, Option-cases, sym, ◌&&◌, ◌∙◌, ltb, length, opt_eq,
}
use cheriplot.Model.Vertex.{root, is_root, is_partial}
use cheriplot.Graph.{GraphTool}
use cheriplot.Subgraph.State.{Merge, put_sub}
use cheriplot.Model.Manager.{Pgm, VertexData, prov}
use cheriplot.Subgraph.Copy.{update_time, merge_partial_vertex_data}
use cheriplot.Subgraph.Roots.{promote}
use cheriplot.Subgraph.Initial.{check_roots, index_in}
use cheriplot.Subgraph.Memory.{merge_pcc_fixup, merge_syscall, is_branch_fault}
use cheriplot.Subgraph.Image.{shape_of, IsMerged}
use cheriplot.Base.Post.{
  Post, Post-if, Post-bind, done, Post-result, failed, Post-mono, Post-option, Post-check,
}
use cheriplot.Parser.State.{as_prov, as_call, as_cap}
use cheriplot.Base.Errors.{value_error, index_error, raise, not_implemented, pure}

module _ ⦃gt : GraphTool⦄ where
  abbrev pub SameShape : Merge → Unit {0} → Merge → Type 0
  SameShape s _ t = shape_of t ≡ shape_of s

  abbrev pub Good : Pgm → List ℕ → Merge → Type 0
  Good old examined s = IsMerged old examined (shape_of s)

  pub keep_shape :
      (old : Pgm) (examined : List ℕ) (s t : Merge)
      → shape_of t ≡ shape_of s
      → Good old examined s
      → Good old examined t
  keep_shape old examined s t same m = subst (IsMerged old examined) (sym same) m

  -- The methods that change data only.
  pub put_sub-shape : (u : ℕ) (d : VertexData) (s : Merge) → shape_of (put_sub u d s) ≡ shape_of s
  unfolding put_sub
  put_sub-shape u d s = elim (Option-cases (s.shared u)) [
    | inl e ↦ rw e refl
    | inr (v, e) ↦ rw e refl
  ]

  pub update_time-shape : (u : ℕ) (s : Merge) → Post (SameShape s) (update_time u s)
  unfolding update_time
  update_time-shape u s =
      Post-if (s.curr.pgm.layer_prov u) _ _ s
        (λ p. Post-result (as_prov (s.curr.pgm.data_of u)) s _ λ d e. done (put_sub-shape u _ s))
        (λ p.
          Post-if (s.curr.pgm.layer_call u) _ _ s
            (λ c.
              Post-result (as_call (s.curr.pgm.data_of u)) s _ λ d e. done (put_sub-shape u _ s))
            (λ c. done refl))

  pub merge_partial-shape :
      (u v : ℕ) (s : Merge) → Post (SameShape s) (merge_partial_vertex_data u v s)
  unfolding merge_partial_vertex_data
  merge_partial-shape u v s = Post-bind (update_time-shape u s) λ _ t same.
      Post-result (as_prov (t.curr.pgm.data_of u)) t _ λ u_data e1.
        Post-result (as_prov (t.context.main.data_of v)) t _ λ v_data e2.
          Post-result (as_cap u_data.cap) t _
            λ u_cap e3. Post-result (as_cap v_data.cap) t _ λ v_cap e4. done same

  pub promote-shape : (us : List ℕ) (s : Merge) → Post (SameShape s) (promote us s)
  unfolding promote
  promote-shape [] s = done refl
  promote-shape (u ∷ us) s = Post-result (as_prov (s.curr.pgm.data_of u)) s _ λ d e.
      let s' = put_sub u (prov (record d { origin = root })) s in
      Post-mono (promote-shape us s') λ _ t h. h ∙ put_sub-shape u _ s

  pub check_roots-shape : (us : List ℕ) (s : Merge) → Post (SameShape s) (check_roots us s)
  unfolding check_roots
  check_roots-shape [] s = done refl
  check_roots-shape (u ∷ us) s =
      Post-result (as_prov (s.curr.pgm.data_of u)) s _
        λ d e. Post-if (is_root d.origin) _ _ s (λ r. check_roots-shape us s) (λ r. failed)

  pub merge_pcc_fixup-shape : (u : ℕ) (s : Merge) → Post (SameShape s) (merge_pcc_fixup u s)
  unfolding merge_pcc_fixup
  merge_pcc_fixup-shape u s =
      Post-result (is_branch_fault s.curr.pcc_fixup.badvaddr s.context.prev_pcc_fixup.saved_addr) s
        _
        λ fault e1.
          Post-if fault _ _ s
            (λ f. Post-result (as_prov (s.curr.pgm.data_of u)) s _ λ d e2.
              Post-if (is_partial d.origin) _ _ s
                (λ p. Post-option (index_in u s.curr.initial_reg_nodes) value_error s _ λ index e3.
                  Post-check (ltb index (length s.context.prev_regset)) index_error s _
                    λ h. done refl)
                (λ p. failed))
            (λ f. done refl)

  pub merge_syscall-shape : (u : ℕ) (s : Merge) → Post (SameShape s) (merge_syscall u s)
  unfolding merge_syscall
  merge_syscall-shape u s =
      Post-if
        (s.context.prev_syscall.active
          && opt_eq s.context.prev_syscall.pc_eret s.curr.syscall.eret_addr)
        (raise not_implemented) (pure tt) s (λ a. failed) (λ a. done refl)
