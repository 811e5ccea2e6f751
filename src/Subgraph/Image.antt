-- ===== src/Subgraph/Image.antt =====
-- The merge keeps the merged graph of the steps before, and each edge that it adds is the image of an
-- edge of the subgraph.
use cheriplot.Base.{
  ◌∷◌, some, inl, inr, ℕ, ◌≡◌, ◌≤◌, ◌<◌, arith, Bool, Option, List, Among, update, update_ne, ◌∙◌,
  ◌≢◌, subst, ap, ℕ_discrete, sym,
}
use cheriplot.Graph.{GraphTool}
use cheriplot.Subgraph.State.{Merge}
use cheriplot.Model.Manager.{Pgm}

module _ ⦃gt : GraphTool⦄ where
  -- What the invariant reads of the state.
  pub record Shape : Type 0 where
    pub graph : gt.Graph
    pub prov_layer : ℕ → Bool
    pub call_layer : ℕ → Bool
    pub subgraph : gt.Graph
    pub copy : ℕ → Option ℕ

  abbrev pub shape_of : Merge → Shape
  shape_of s = record {
    graph = s.context.main.graph;
    prov_layer = s.context.main.layer_prov;
    call_layer = s.context.main.layer_call;
    subgraph = s.curr.pgm.graph;
    copy = s.copy_vertex_map;
  }

  -- An edge of the merged graph comes from one of the subgraph, whose ends were copied to its ends.
  pub record IsImage (s : Shape) (k : ℕ) : Type 0 where
    pub edge : ℕ
    pub in_subgraph : edge < gt.num_edges s.subgraph
    pub source_copy : s.copy (gt.source s.subgraph edge) ≡ some (gt.source s.graph k)
    pub target_copy : s.copy (gt.target s.subgraph edge) ≡ some (gt.target s.graph k)

  -- The merged graph against that of the steps before; `done` are the vertices examined.
  pub record IsMerged (old : Pgm) (examined : List ℕ) (s : Shape) : Type 0 where
    pub more_vertices : gt.num_vertices old.graph ≤ gt.num_vertices s.graph
    pub more_edges : gt.num_edges old.graph ≤ gt.num_edges s.graph
    pub kept_source :
        (k : ℕ) → k < gt.num_edges old.graph → gt.source s.graph k ≡ gt.source old.graph k
    pub kept_target :
        (k : ℕ) → k < gt.num_edges old.graph → gt.target s.graph k ≡ gt.target old.graph k
    pub kept_prov : (v : ℕ) → v < gt.num_vertices old.graph → s.prov_layer v ≡ old.layer_prov v
    pub kept_call : (v : ℕ) → v < gt.num_vertices old.graph → s.call_layer v ≡ old.layer_call v
    pub images : (k : ℕ) → gt.num_edges old.graph ≤ k → k < gt.num_edges s.graph → IsImage s k
    pub copied : (u v : ℕ) → s.copy u ≡ some v → Among u examined

  -- A vertex is examined, and its entry in the map is written.
  pub IsMerged-put_copy :
      (old : Pgm) (done : List ℕ) (s : Shape) (u : ℕ) (v : Option ℕ)
      → ¬ Among u done
      → IsMerged old done s
      → IsMerged old (u ∷ done) (record s { copy = update s.copy u v })
  IsMerged-put_copy old done s u v fresh m =
      let other : (w x : ℕ) → s.copy w ≡ some x → update s.copy u v w ≡ some x = λ w x h.
        update_ne s.copy u w v (λ same. fresh (subst (λ y. Among y done) same (m.copied w x h)))
        ∙ h in
      record {
        more_vertices = m.more_vertices;
        more_edges = m.more_edges;
        kept_source = m.kept_source;
        kept_target = m.kept_target;
        kept_prov = m.kept_prov;
        kept_call = m.kept_call;
        images = λ k old_k new_k.
            let i = m.images k old_k new_k in
            record {
              edge = i.edge;
              in_subgraph = i.in_subgraph;
              source_copy = other _ _ i.source_copy;
              target_copy = other _ _ i.target_copy;
            };
        copied = λ w x h. elim (ℕ_discrete w u) [
          | yes same ↦ inl same
          | no apart ↦ inr (m.copied w x (sym (update_ne s.copy u w v apart) ∙ h))
        ];
      }

  -- A vertex is added, with its layers.
  pub IsMerged-add_vertex :
      (old : Pgm) (done : List ℕ) (s : Shape) (p c : ℕ → Bool)
      → ((v : ℕ) → v ≢ gt.num_vertices s.graph → p v ≡ s.prov_layer v)
      → ((v : ℕ) → v ≢ gt.num_vertices s.graph → c v ≡ s.call_layer v)
      → IsMerged old done s
      → IsMerged old done
          (record s { graph = gt.add_vertex s.graph; prov_layer = p; call_layer = c })
  IsMerged-add_vertex old done s p c hp hc m = record {
    more_vertices = omega (arith, m.more_vertices, gt.num_vertices-add_vertex s.graph);
    more_edges = omega (arith, m.more_edges, gt.num_edges-add_vertex s.graph);
    kept_source = λ k h. gt.source-add_vertex s.graph k ∙ m.kept_source k h;
    kept_target = λ k h. gt.target-add_vertex s.graph k ∙ m.kept_target k h;
    kept_prov = λ v h. hp v (λ e. absurd (omega (arith, m.more_vertices))) ∙ m.kept_prov v h;
    kept_call = λ v h. hc v (λ e. absurd (omega (arith, m.more_vertices))) ∙ m.kept_call v h;
    images = λ k old_k new_k.
        let i = m.images k old_k (omega (arith, gt.num_edges-add_vertex s.graph)) in
        record {
          edge = i.edge;
          in_subgraph = i.in_subgraph;
          source_copy = i.source_copy ∙ ap some (sym (gt.source-add_vertex s.graph k));
          target_copy = i.target_copy ∙ ap some (sym (gt.target-add_vertex s.graph k));
        };
    copied = m.copied;
  }

  -- The ends of the edges that were there, and of the new one.
  source_old :
      (g : gt.Graph) (u v k : ℕ)
      → k ≢ gt.num_edges g
      → gt.source (gt.add_edge g u v) k ≡ gt.source g k
  source_old g u v k h = gt.source-add_edge g u v k ∙ ground arith

  target_old :
      (g : gt.Graph) (u v k : ℕ)
      → k ≢ gt.num_edges g
      → gt.target (gt.add_edge g u v) k ≡ gt.target g k
  target_old g u v k h = gt.target-add_edge g u v k ∙ ground arith

  source_new : (g : gt.Graph) (u v k : ℕ) → k ≡ gt.num_edges g → gt.source (gt.add_edge g u v) k ≡ u
  source_new g u v k h = gt.source-add_edge g u v k ∙ ground arith

  target_new : (g : gt.Graph) (u v k : ℕ) → k ≡ gt.num_edges g → gt.target (gt.add_edge g u v) k ≡ v
  target_new g u v k h = gt.target-add_edge g u v k ∙ ground arith

  pub IsMerged-add_edge :
      (old : Pgm) (done : List ℕ) (s : Shape) (e source target : ℕ)
      → e < gt.num_edges s.subgraph
      → s.copy (gt.source s.subgraph e) ≡ some source
      → s.copy (gt.target s.subgraph e) ≡ some target
      → IsMerged old done s
      → IsMerged old done (record s { graph = gt.add_edge s.graph source target })
  IsMerged-add_edge old done s e source target inside hs ht m =
      let n = gt.num_edges s.graph in
      let below : (k : ℕ) → k < gt.num_edges old.graph → k ≢ n =
        λ k h same. absurd (omega (arith, m.more_edges)) in
      record {
        more_vertices =
            omega (arith, m.more_vertices, gt.num_vertices-add_edge s.graph source target);
        more_edges = omega (arith, m.more_edges, gt.num_edges-add_edge s.graph source target);
        kept_source = λ k h. source_old s.graph source target k (below k h) ∙ m.kept_source k h;
        kept_target = λ k h. target_old s.graph source target k (below k h) ∙ m.kept_target k h;
        kept_prov = m.kept_prov;
        kept_call = m.kept_call;
        images = λ k old_k new_k. elim (ℕ_discrete k n) [
          | yes last ↦ record {
            edge = e;
            in_subgraph = inside;
            source_copy = hs ∙ ap some (sym (source_new s.graph source target k last));
            target_copy = ht ∙ ap some (sym (target_new s.graph source target k last));
          }
          | no other ↦
              let i =
                m.images k old_k (omega (arith, gt.num_edges-add_edge s.graph source target)) in
              record {
                edge = i.edge;
                in_subgraph = i.in_subgraph;
                source_copy =
                    i.source_copy ∙ ap some (sym (source_old s.graph source target k other));
                target_copy =
                    i.target_copy ∙ ap some (sym (target_old s.graph source target k other));
              }
        ];
        copied = m.copied;
      }

  pub IsMerged-adopt :
      (old : Pgm) (done : List ℕ) (s : Shape) (u w : ℕ)
      → IsMerged old done s
      → IsMerged old done (record s { subgraph = gt.add_edge s.subgraph u w })
  IsMerged-adopt old done s u w m = record {
    more_vertices = m.more_vertices;
    more_edges = m.more_edges;
    kept_source = m.kept_source;
    kept_target = m.kept_target;
    kept_prov = m.kept_prov;
    kept_call = m.kept_call;
    images = λ k old_k new_k.
        let i = m.images k old_k new_k in
        let other : i.edge ≢ gt.num_edges s.subgraph =
          λ same. absurd (omega (arith, i.in_subgraph)) in
        record {
          edge = i.edge;
          in_subgraph = omega (arith, i.in_subgraph, gt.num_edges-add_edge s.subgraph u w);
          source_copy = ap s.copy (source_old s.subgraph u w i.edge other) ∙ i.source_copy;
          target_copy = ap s.copy (target_old s.subgraph u w i.edge other) ∙ i.target_copy;
        };
    copied = m.copied;
  }
