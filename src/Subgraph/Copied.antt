-- ===== src/Subgraph/Copied.antt =====
-- The copy of a vertex and its edges keeps the invariant of Subgraph/Image.
use cheriplot.Base.{
  [], ◌∷◌, none, some, inl, inr, ℕ, ◌≡◌, ◌<◌, refl, arith, List, subst, Among, sym, Bool-cases,
  ◌==◌, ◌&&◌, Option, update, update_ne,
}
use cheriplot.Graph.{GraphTool}
use cheriplot.Subgraph.State.{Merge}
use cheriplot.Model.Manager.{Pgm}
use cheriplot.Subgraph.Copy.{
  add_copy, copy_edge, merge_edge, is_prov_root, merge_edges, merge_subgraph_vertex,
}
use cheriplot.Subgraph.Image.{shape_of, IsMerged-add_edge, IsMerged-add_vertex, IsMerged-put_copy}
use cheriplot.Base.Post.{Post, Post-bind, done}
use cheriplot.Subgraph.Unchanged.{Good, update_time-shape, keep_shape}

module _ ⦃gt : GraphTool⦄ where
  -- The copy of a vertex and its edges.
  pub add_copy-Good :
      (old : Pgm) (examined : List ℕ) (u : ℕ) (s : Merge)
      → ¬ Among u examined
      → Good old examined s
      → Good old (u ∷ examined) (add_copy u s)
  unfolding add_copy
  add_copy-Good old examined u s fresh m =
      let n = gt.num_vertices s.context.main.graph in
      let added =
        IsMerged-add_vertex old examined (shape_of s)
          (update s.context.main.layer_prov n (s.curr.pgm.layer_prov u))
          (update s.context.main.layer_call n (s.curr.pgm.layer_call u))
          (λ v h. update_ne s.context.main.layer_prov n v _ h)
          (λ v h. update_ne s.context.main.layer_call n v _ h) m in
      IsMerged-put_copy old examined _ u (some (gt.num_vertices s.context.main.graph)) fresh added

  pub copy_edge-Good :
      (old : Pgm) (examined : List ℕ) (u e source target : ℕ) (s : Merge)
      → e < gt.num_edges s.curr.pgm.graph
      → s.copy_vertex_map (gt.source s.curr.pgm.graph e) ≡ some source
      → s.copy_vertex_map (gt.target s.curr.pgm.graph e) ≡ some target
      → Good old examined s
      → Good old examined (copy_edge u e source target s)
  unfolding copy_edge
  copy_edge-Good old examined u e source target s inside hs ht m =
      let with_edge = IsMerged-add_edge old examined (shape_of s) e source target inside hs ht m in
      elim (Bool-cases (u == gt.source s.curr.pgm.graph e)) [
        | inl out ↦ rw out with_edge
        | inr into ↦
            elim (Bool-cases (s.curr.pgm.layer_prov u && is_prov_root (s.curr.pgm.data_of u))) [
              | inl r ↦ rw (into, r) m
              | inr r ↦ rw (into, r) with_edge
            ]
      ]

  pub copy_edge-graph :
      (u e source target : ℕ) (s : Merge)
      → (copy_edge u e source target s).curr.pgm.graph ≡ s.curr.pgm.graph
  unfolding copy_edge
  copy_edge-graph u e source target s = ground arith

  abbrev EdgeKept : Pgm → List ℕ → Merge → Merge → Type 0
  EdgeKept old examined s t = Good old examined t × (t.curr.pgm.graph ≡ s.curr.pgm.graph)

  -- One round, by whether the edge was copied and where its ends were.
  pub ends_copied :
      (old : Pgm) (examined : List ℕ) (u e : ℕ) (s : Merge) (target source : Option ℕ)
      → e < gt.num_edges s.curr.pgm.graph
      → s.copy_vertex_map (gt.target s.curr.pgm.graph e) ≡ target
      → s.copy_vertex_map (gt.source s.curr.pgm.graph e) ≡ source
      → Good old examined s
      → EdgeKept old examined s (elim target [
        | none ↦ s
        | some x ↦ elim source [ none ↦ s | some y ↦ copy_edge u e y x s ]
      ])
  ends_copied old examined u e s none source inside ht hs m = (m, refl)
  ends_copied old examined u e s (some x) none inside ht hs m = (m, refl)
  ends_copied old examined u e s (some x) (some y) inside ht hs m =
      (copy_edge-Good old examined u e y x s inside hs ht m, copy_edge-graph u e y x s)

  pub merge_edge-Good :
      (old : Pgm) (examined : List ℕ) (u e : ℕ) (s : Merge)
      → e < gt.num_edges s.curr.pgm.graph
      → Good old examined s
      → EdgeKept old examined s (merge_edge u e s)
  unfolding merge_edge
  merge_edge-Good old examined u e s inside m = elim (Bool-cases (s.copy_edge_map e)) [
    | inl copied ↦ rw copied (m, refl)
    | inr fresh ↦ rw fresh (ends_copied old examined u e s _ _ inside refl refl m)
  ]

  pub merge_edges-Good :
      (old : Pgm) (examined : List ℕ) (u : ℕ) (es : List ℕ) (s : Merge)
      → ((e : ℕ) → Among e es → e < gt.num_edges s.curr.pgm.graph)
      → Good old examined s
      → Good old examined (merge_edges u es s)
  unfolding merge_edges
  merge_edges-Good old examined u [] s inside m = m
  merge_edges-Good old examined u (e ∷ es) s inside m =
      let next = merge_edge-Good old examined u e s (inside e (inl refl)) m in
      merge_edges-Good old examined u es (merge_edge u e s)
        (λ x a. subst (λ g. x < gt.num_edges g) (sym next.1) (inside x (inr a))) next.0

  abbrev pub Examined : Pgm → List ℕ → ℕ → Unit {0} → Merge → Type 0
  Examined old examined u _ t = Good old (u ∷ examined) t

  pub merge_subgraph_vertex-Good :
      (old : Pgm) (examined : List ℕ) (u : ℕ) (s : Merge)
      → ¬ Among u examined
      → Good old examined s
      → Post (Examined old examined u) (merge_subgraph_vertex u s)
  unfolding merge_subgraph_vertex
  merge_subgraph_vertex-Good old examined u s fresh m =
      Post-bind (update_time-shape u s) λ _ t same.
        let copied = add_copy-Good old examined u t fresh (keep_shape old examined s t same m) in
        done (
          merge_edges-Good old (u ∷ examined) u _ (add_copy u t)
            (λ e a. gt.all_edges-lt (add_copy u t).curr.pgm.graph u e a) copied)
