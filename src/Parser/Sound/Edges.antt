-- ===== src/Parser/Sound/Edges.antt =====
-- A new edge, and a change of the properties of edges, keep the provenance layer sound.
use cheriplot.Graph.{GraphTool}
use cheriplot.Base.{ℕ, List, ◌≡◌, ◌<◌, true, arith, ℕ_discrete, refl}
use cheriplot.Parser.State.{Core}
use cheriplot.Model.Manager.{EdgeOperation, Pgm}
use cheriplot.Parser.Shape.{IsSound, Next, Grows, IsProvGraph, Derives, Grows-Derives, Grows-IsNode}

module _ ⦃gt : GraphTool⦄ where
  -- The graph with an edge more and any properties of edges.
  abbrev pub with_edge :
      (u v : ℕ) → (ℕ → EdgeOperation) → (times addrs : ℕ → ℕ) → (ℕ → List ℕ) → Pgm → Pgm
  with_edge u v ops times addrs regs p = record p {
    graph = gt.add_edge p.graph u v;
    edge_operation = ops;
    edge_time = times;
    edge_addr = addrs;
    edge_regs = regs;
  }

  module _ (u v : ℕ) (ops : ℕ → EdgeOperation) (times addrs : ℕ → ℕ) (regs : ℕ → List ℕ)
      (p : Pgm) where
    with_edge-Grows : Grows p (with_edge u v ops times addrs regs p)
    with_edge-Grows = record {
      more = omega (arith, gt.num_vertices-add_edge p.graph u v);
      kept = λ w h. refl;
      layer = λ w h. refl;
    }

    edge-targets :
        IsProvGraph p
        → v < gt.num_vertices p.graph
        → (e : ℕ) → e < gt.num_edges (gt.add_edge p.graph u v)
        → gt.target (gt.add_edge p.graph u v) e < gt.num_vertices (gt.add_edge p.graph u v)
    edge-targets g below e h = elim (ℕ_discrete e (gt.num_edges p.graph)) [
      | yes new ↦
          ground (arith, gt.target-add_edge p.graph u v e, gt.num_vertices-add_edge p.graph u v)
      | no old ↦ ground (
        arith,
        gt.target-add_edge p.graph u v e,
        gt.num_vertices-add_edge p.graph u v,
        gt.num_edges-add_edge p.graph u v,
        g.targets e,
      )
    ]

    edge-edges :
        IsProvGraph p
        → (p.layer_prov v ≡ true → Derives p u v)
        → (e : ℕ)
        → let q = with_edge u v ops times addrs regs p in
          e < gt.num_edges q.graph
          → q.layer_prov (gt.target q.graph e) ≡ true
          → Derives q (gt.source q.graph e) (gt.target q.graph e)
    edge-edges g derives e h l = elim (ℕ_discrete e (gt.num_edges p.graph)) [
      | yes new ↦
          let src : gt.source (gt.add_edge p.graph u v) e ≡ u =
            ground (arith, gt.source-add_edge p.graph u v e) in
          let tgt : gt.target (gt.add_edge p.graph u v) e ≡ v =
            ground (arith, gt.target-add_edge p.graph u v e) in
          rw (src, tgt) (Grows-Derives with_edge-Grows (derives (rw tgt at l)))
      | no old ↦
          let src : gt.source (gt.add_edge p.graph u v) e ≡ gt.source p.graph e =
            ground (arith, gt.source-add_edge p.graph u v e) in
          let tgt : gt.target (gt.add_edge p.graph u v) e ≡ gt.target p.graph e =
            ground (arith, gt.target-add_edge p.graph u v e) in
          rw (src, tgt)
            (Grows-Derives with_edge-Grows
              (g.edges e (omega (arith, gt.num_edges-add_edge p.graph u v)) (rw tgt at l)))
    ]

    pub with_edge-IsProvGraph :
        IsProvGraph p
        → v < gt.num_vertices p.graph
        → (p.layer_prov v ≡ true → Derives p u v)
        → IsProvGraph (with_edge u v ops times addrs regs p)
    with_edge-IsProvGraph g below derives = record {
      initial = omega (arith, g.initial, gt.num_vertices-add_edge p.graph u v);
      targets = edge-targets g below;
      nodes = λ w l. Grows-IsNode with_edge-Grows (g.nodes w l);
      edges = edge-edges g derives;
      partials = g.partials;
      roots = g.roots;
    }

  pub with_edge-Next :
      (u v : ℕ) (ops : ℕ → EdgeOperation) (times addrs : ℕ → ℕ) (regs : ℕ → List ℕ) (s : Core)
      → IsSound s
      → v < gt.num_vertices s.pgm.graph
      → (s.pgm.layer_prov v ≡ true → Derives s.pgm u v)
      → Next s (record s { pgm = with_edge u v ops times addrs regs s.pgm })
  with_edge-Next u v ops times addrs regs s h below derives =
      let grows = with_edge-Grows u v ops times addrs regs s.pgm in
      record {
        sound = record {
          graph = with_edge-IsProvGraph u v ops times addrs regs s.pgm h.graph below derives;
          regs = λ i w k. Grows-IsNode grows (h.regs i w k);
          mem = λ a w k. Grows-IsNode grows (h.mem a w k);
          keys = h.keys;
        };
        grows = grows;
      }

  -- A change of the properties of edges.
  pub edge_props-Next :
      (ops : ℕ → EdgeOperation) (times addrs : ℕ → ℕ) (regs : ℕ → List ℕ) (s : Core)
      → IsSound s
      → Next s (record s {
        pgm = record s.pgm {
          edge_operation = ops;
          edge_time = times;
          edge_addr = addrs;
          edge_regs = regs;
        };
      })
  edge_props-Next ops times addrs regs s h =
      let p : Pgm = record s.pgm {
        edge_operation = ops;
        edge_time = times;
        edge_addr = addrs;
        edge_regs = regs;
      } in
      let grows : Grows s.pgm p = record {
        more = omega arith;
        kept = λ v h. refl;
        layer = λ v h. refl;
      } in
      record {
        sound = record {
          graph = record {
            initial = h.graph.initial;
            targets = h.graph.targets;
            nodes = λ v l. Grows-IsNode grows (h.graph.nodes v l);
            edges = λ e k l. Grows-Derives grows (h.graph.edges e k l);
            partials = h.graph.partials;
            roots = h.graph.roots;
          };
          regs = λ i v k. Grows-IsNode grows (h.regs i v k);
          mem = λ a v k. Grows-IsNode grows (h.mem a v k);
          keys = h.keys;
        };
        grows = grows;
      }
