-- ===== src/Parser/Sound/Graph.antt =====
-- The primitive steps of the graph and its properties keep the provenance layer sound.
use cheriplot.Base.{
  ℕ, ◌≡◌, refl, ◌∙◌, sym, arith, Bool, update, true, some, none, false, if◌then◌else◌, ◌≢◌, ◌<◌,
  ℕ_discrete, update_self,
}
use cheriplot.Graph.{GraphTool}
use cheriplot.Model.Manager.{Pgm, VertexData, set_data}
use cheriplot.Parser.State.{Core}
use cheriplot.Parser.Shape.{
  shape, IsProvGraph, IsSound, Grows, Next, Grows-IsNode, Grows-Derives, IsNode, first_free,
  Derives,
}
use cheriplot.Model.Vertex.{CheriNodeOrigin, partial}
use cheriplot.Model.Cap.{CheriCap}

module _ ⦃gt : GraphTool⦄ where
  shape-set_data :
      (p : Pgm) (w : ℕ) (d : VertexData) (v : ℕ)
      → shape d ≡ shape (p.data_of w)
      → shape ((set_data w d p).data_of v) ≡ shape (p.data_of v)
  shape-set_data p w d v e = ground arith

  pub set_data-Grows :
      (p : Pgm) (w : ℕ) (d : VertexData) → shape d ≡ shape (p.data_of w) → Grows p (set_data w d p)
  set_data-Grows p w d e = record {
    more = omega arith;
    kept = λ v h. shape-set_data p w d v e;
    layer = λ v h. refl;
  }

  -- A change of the data that keeps the shape.
  pub set_data-IsProvGraph :
      (p : Pgm) (w : ℕ) (d : VertexData)
      → shape d ≡ shape (p.data_of w)
      → IsProvGraph p
      → IsProvGraph (set_data w d p)
  set_data-IsProvGraph p w d e g =
      let grows = set_data-Grows p w d e in
      record {
        initial = g.initial;
        targets = g.targets;
        nodes = λ v l. Grows-IsNode grows (g.nodes v l);
        edges = λ k h l. Grows-Derives grows (g.edges k h l);
        partials = λ v c h. g.partials v c (sym (shape-set_data p w d v e) ∙ h);
        roots = λ v c h. g.roots v c (sym (shape-set_data p w d v e) ∙ h);
      }

  pub set_data-Next :
      (s : Core) (w : ℕ) (d : VertexData)
      → shape d ≡ shape (s.pgm.data_of w)
      → IsSound s
      → Next s (record s { pgm = set_data w d s.pgm })
  set_data-Next s w d e h =
      let grows = set_data-Grows s.pgm w d e in
      record {
        sound = record {
          graph = set_data-IsProvGraph s.pgm w d e h.graph;
          regs = λ i v k. Grows-IsNode grows (h.regs i v k);
          mem = λ a v k. Grows-IsNode grows (h.mem a v k);
          keys = h.keys;
        };
        grows = grows;
      }

  -- A vertex more, with its data, in the layer `prov_layer` or in neither.
  abbrev pub with_vertex : VertexData → Bool → (ℕ → Bool) → Pgm → Pgm
  with_vertex d in_prov calls p = record p {
    graph = gt.add_vertex p.graph;
    data_of = update p.data_of (gt.num_vertices p.graph) d;
    layer_prov =
        if in_prov then update p.layer_prov (gt.num_vertices p.graph) true else p.layer_prov;
    layer_call = calls;
  }

  with_vertex-Grows :
      (d : VertexData) (in_prov : Bool) (calls : ℕ → Bool) (p : Pgm)
      → Grows p (with_vertex d in_prov calls p)
  with_vertex-Grows d in_prov calls p = record {
    more = omega (arith, gt.num_vertices-add_vertex p.graph);
    kept = λ v h. ground arith;
    layer = λ v h. ground arith;
  }

  -- What the data of a new vertex must be.
  abbrev pub IsNew : VertexData → Bool → Type 0
  IsNew d true =
      (o : CheriNodeOrigin) × (c : CheriCap) × (shape d ≡ some (o, some c)) × (o ≢ partial)
  IsNew d false = shape d ≡ none

  new-partials :
      (d : VertexData) (in_prov : Bool) (calls : ℕ → Bool) (p : Pgm)
      → IsNew d in_prov
      → IsProvGraph p
      → (v : ℕ) (c : CheriCap)
      → shape ((with_vertex d in_prov calls p).data_of v) ≡ some (partial, some c)
      → (v < first_free) × (c.valid ≡ false)
  new-partials d true calls p (o, c', e, ne) g v c h =
      elim (ℕ_discrete v (gt.num_vertices p.graph)) [
        | yes e' ↦ absurd (ne (ground arith))
        | no ne' ↦ g.partials v c (ground arith)
      ]
  new-partials d false calls p n g v c h = elim (ℕ_discrete v (gt.num_vertices p.graph)) [
    | yes e' ↦ absurd (ground arith)
    | no ne' ↦ g.partials v c (ground arith)
  ]

  new-nodes :
      (d : VertexData) (in_prov : Bool) (calls : ℕ → Bool) (p : Pgm)
      → IsNew d in_prov
      → IsProvGraph p
      → (v : ℕ) → (with_vertex d in_prov calls p).layer_prov v ≡ true
      → IsNode (with_vertex d in_prov calls p) v
  new-nodes d true calls p (o, c, e, ne) g v h = elim (ℕ_discrete v (gt.num_vertices p.graph)) [
    | yes e' ↦ record {
      origin = o;
      cap = c;
      below = omega (arith, gt.num_vertices-add_vertex p.graph);
      has_shape = rw e' (rw (update_self p.data_of (gt.num_vertices p.graph) d) e);
    }
    | no ne' ↦ Grows-IsNode (with_vertex-Grows d true calls p) (g.nodes v (ground arith))
  ]
  new-nodes d false calls p n g v h = Grows-IsNode (with_vertex-Grows d false calls p) (g.nodes v h)

  old-target :
      (d : VertexData) (in_prov : Bool) (calls : ℕ → Bool) (p : Pgm) (v : ℕ)
      → v < gt.num_vertices p.graph
      → (with_vertex d in_prov calls p).layer_prov v ≡ p.layer_prov v
  old-target d in_prov calls p v h = (with_vertex-Grows d in_prov calls p).layer v h

  new-edges :
      (d : VertexData) (in_prov : Bool) (calls : ℕ → Bool) (p : Pgm)
      → IsProvGraph p
      → (e : ℕ)
      → let q = with_vertex d in_prov calls p in
        e < gt.num_edges q.graph
        → q.layer_prov (gt.target q.graph e) ≡ true
        → Derives q (gt.source q.graph e) (gt.target q.graph e)
  new-edges d in_prov calls p g e h l =
      let below : e < gt.num_edges p.graph = omega (arith, gt.num_edges-add_vertex p.graph) in
      rw (gt.source-add_vertex p.graph e, gt.target-add_vertex p.graph e)
        (Grows-Derives (with_vertex-Grows d in_prov calls p) (
          g.edges e below (
            sym (old-target d in_prov calls p (gt.target p.graph e) (g.targets e below))
            ∙ (rw (gt.target-add_vertex p.graph e) at l))))

  pub with_vertex-IsProvGraph :
      (d : VertexData) (in_prov : Bool) (calls : ℕ → Bool) (p : Pgm)
      → IsNew d in_prov
      → IsProvGraph p
      → IsProvGraph (with_vertex d in_prov calls p)
  with_vertex-IsProvGraph d in_prov calls p n g = record {
    initial = omega (arith, g.initial, gt.num_vertices-add_vertex p.graph);
    targets = λ e h. rw (gt.target-add_vertex p.graph e) (
        omega (
          arith,
          g.targets e (omega (arith, gt.num_edges-add_vertex p.graph)),
          gt.num_vertices-add_vertex p.graph,
        ));
    nodes = new-nodes d in_prov calls p n g;
    edges = new-edges d in_prov calls p g;
    partials = new-partials d in_prov calls p n g;
    roots = λ v c h. elim (ℕ_discrete v (gt.num_vertices p.graph)) [
      | yes e ↦ omega (arith, g.initial)
      | no ne ↦ g.roots v c (ground arith)
    ];
  }

  pub with_vertex-Next :
      (d : VertexData) (in_prov : Bool) (calls : ℕ → Bool) (s : Core)
      → IsNew d in_prov
      → IsSound s
      → Next s (record s { pgm = with_vertex d in_prov calls s.pgm })
  with_vertex-Next d in_prov calls s n h =
      let grows = with_vertex-Grows d in_prov calls s.pgm in
      record {
        sound = record {
          graph = with_vertex-IsProvGraph d in_prov calls s.pgm n h.graph;
          regs = λ i v k. Grows-IsNode grows (h.regs i v k);
          mem = λ a v k. Grows-IsNode grows (h.mem a v k);
          keys = h.keys;
        };
        grows = grows;
      }
