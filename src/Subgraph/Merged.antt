-- ===== src/Subgraph/Merged.antt =====
-- The whole merge of a subgraph keeps the invariant of Subgraph/Image.
use cheriplot.Base.{[], ◌∷◌, some, ℕ, ◌≡◌, refl, arith, List, Bool, Among, mem_nat, opt_eq, ◌==◌}
use cheriplot.Graph.{GraphTool}
use cheriplot.Subgraph.Step.{
  merge_first, merge_later, examine_vertex, examine_vertices, new_merge, has_value,
}
use cheriplot.Model.Manager.{Pgm}
use cheriplot.Subgraph.State.{Context, Merge, WorkerResult}
use cheriplot.Base.Errors.{M, ok, when, pure}
use cheriplot.Base.Post.{Post, done, Post-if, Post-bind, Post-when, Post-ok, Post-mono}
use cheriplot.Subgraph.Image.{IsMerged, shape_of}
use cheriplot.Subgraph.Initial.{merge_initial_vertex}
use cheriplot.Subgraph.Memory.{
  merge_pcc_fixup, merge_syscall, merge_callgraph, merge_initial_mem_vertex,
}
use cheriplot.Subgraph.Copy.{merge_subgraph_vertex}
use cheriplot.Subgraph.Unchanged.{
  Good, SameShape, keep_shape, merge_pcc_fixup-shape, merge_syscall-shape,
}
use cheriplot.Subgraph.Copied.{Examined, merge_subgraph_vertex-Good}
use cheriplot.Subgraph.Kept.{
  merge_initial_vertex-Good, Good-more, merge_callgraph-Good, merge_initial_mem_vertex-Good,
}

module _ ⦃gt : GraphTool⦄ where
  merge_first-Good :
      (old : Pgm) (examined : List ℕ) (u : ℕ) (s : Merge)
      → ¬ Among u examined
      → Good old examined s
      → Post (Examined old examined u) (merge_first u s)
  unfolding merge_first
  merge_first-Good old examined u s fresh m =
      Post-if (mem_nat u s.curr.initial_reg_nodes) (merge_initial_vertex u)
        (merge_subgraph_vertex u) s (λ initial. merge_initial_vertex-Good old examined u s fresh m)
        (λ other. merge_subgraph_vertex-Good old examined u s fresh m)

  -- A step that changes data only, or nothing.
  when-Good :
      (old : Pgm) (examined : List ℕ) (b : Bool) (n : M Merge (Unit {0})) (s : Merge)
      → Post (SameShape s) (n s)
      → Good old examined s
      → Post (λ _ t. Good old examined t) (when b n s)
  when-Good old examined b n s same m =
      Post-when {Q = λ _ t. Good old examined t} b n s
        (λ h. Post-mono same λ _ t e. keep_shape old examined s t e m) m

  merge_later-Good :
      (old : Pgm) (examined : List ℕ) (u : ℕ) (s : Merge)
      → ¬ Among u examined
      → Good old examined s
      → Post (Examined old examined u) (merge_later u s)
  unfolding merge_later
  merge_later-Good old examined u s fresh m =
      Post-bind
        (when-Good old examined (opt_eq (some u) s.curr.pcc_fixup.epcc) (merge_pcc_fixup u) s
          (merge_pcc_fixup-shape u s) m)
        λ _ x kept.
          Post-bind
            (when-Good old examined (opt_eq (some u) s.curr.syscall.eret_cap) (merge_syscall u) x
              (merge_syscall-shape u x) kept)
            λ _ y good.
              Post-if (opt_eq (some u) s.curr.callgraph.root) (merge_callgraph u) _ y
                (λ root. merge_callgraph-Good old examined u y fresh good)
                (λ other.
                  Post-if (mem_nat u s.curr.initial_reg_nodes) (merge_initial_vertex u) _ y
                    (λ initial. merge_initial_vertex-Good old examined u y fresh good)
                    (λ no_reg.
                      Post-if (has_value u s.curr.initial_map) (merge_initial_mem_vertex u)
                        (merge_subgraph_vertex u) y
                        (λ mem. merge_initial_mem_vertex-Good old examined u y fresh good)
                        (λ plain. merge_subgraph_vertex-Good old examined u y fresh good)))

  examine_vertex-Good :
      (old : Pgm) (examined : List ℕ) (u : ℕ) (s : Merge)
      → ¬ Among u examined
      → Good old examined s
      → Post (Examined old examined u) (examine_vertex u s)
  unfolding examine_vertex
  examine_vertex-Good old examined u s fresh m =
      Post-if (s.omit_vertex_map u) (pure tt) _ s (λ omitted. done (Good-more old examined u s m))
        (λ kept.
          Post-if (s.context.step_idx == 0) (merge_first u) (merge_later u) s
            (λ first. merge_first-Good old examined u s fresh m)
            (λ later. merge_later-Good old examined u s fresh m))

  -- No vertex is listed twice, nor in the other list.
  abbrev pub AreNew : List ℕ → List ℕ → Type 0
  AreNew examined [] = Unit
  AreNew examined (u ∷ us) = (¬ Among u examined) × AreNew (u ∷ examined) us

  abbrev pub append_rev : List ℕ → List ℕ → List ℕ
  append_rev [] examined = examined
  append_rev (u ∷ us) examined = append_rev us (u ∷ examined)

  examine_vertices-Good :
      (old : Pgm) (examined us : List ℕ) (s : Merge)
      → AreNew examined us
      → Good old examined s
      → Post (λ _ t. Good old (append_rev us examined) t) (examine_vertices us s)
  unfolding examine_vertices
  examine_vertices-Good old examined [] s new m = done m
  examine_vertices-Good old examined (u ∷ us) s new m =
      Post-bind (examine_vertex-Good old examined u s new.0 m)
        λ _ t good. examine_vertices-Good old (u ∷ examined) us t new.1 good

  new_merge-Good : (c : Context) (result : WorkerResult) → Good c.main [] (new_merge c result)
  new_merge-Good c result = record {
    more_vertices = omega arith;
    more_edges = omega arith;
    kept_source = λ k h. refl;
    kept_target = λ k h. refl;
    kept_prov = λ v h. refl;
    kept_call = λ v h. refl;
    images = λ k a b. absurd (omega arith);
    copied = λ u v h. cc;
  }

  -- If the search examines no vertex twice and the merge of a subgraph does not raise, then the merged
  -- graph keeps the vertices of the steps before with their layers and their edges with their ends,
  -- and each edge that it adds comes from an edge of the subgraph whose ends were copied to its ends.
  pub examine_vertices-IsMerged :
      (c : Context) (result : WorkerResult) (us : List ℕ) (t : Merge)
      → AreNew [] us
      → examine_vertices us (new_merge c result) ≡ ok (tt, t)
      → IsMerged c.main (append_rev us []) (shape_of t)
  examine_vertices-IsMerged c result us t new ran =
      Post-ok tt t
        (examine_vertices-Good c.main [] us (new_merge c result) new (new_merge-Good c result)) ran
