-- ===== src/Parser/Shape.antt =====
-- The part of a vertex that no callback changes: its origin and its capability without the times.
-- Over it, what a sound provenance layer is, and what a step of the parser keeps.
use cheriplot.Base.{
  ℕ, ◌≤◌, ◌<◌, ◌≡◌, refl, ◌∙◌, true, false, Option, none, some, get_elem?, lookup, arith, IsDict,
}
use cheriplot.Base.Int.{negsuc}
use cheriplot.Base.Errors.{ok}
use cheriplot.Graph.{GraphTool}
use cheriplot.Model.Cap.{CheriCap}
use cheriplot.Model.Vertex.{CheriNodeOrigin, partial, root}
use cheriplot.Model.Manager.{Pgm, VertexData, absent, prov, call}
use cheriplot.Parser.State.{Core}
use cheriplot.Parser.Nodes.{is_violation}

abbrev pub frozen : CheriCap → CheriCap
frozen c = record c { t_alloc = negsuc 0; t_free = negsuc 0 }

abbrev pub frozen_cap : Option CheriCap → Option CheriCap
frozen_cap none = none
frozen_cap (some c) = some (frozen c)

abbrev pub shape : VertexData → Option (CheriNodeOrigin × Option CheriCap)
shape absent = none
shape (prov d) = some (d.origin, frozen_cap d.cap)
shape (call d) = none

-- The first vertex behind those of the initial register set.
abbrev pub first_free : ℕ
first_free = 65

module _ ⦃gt : GraphTool⦄ where
  -- A vertex with a capability.
  pub record IsNode (p : Pgm) (v : ℕ) : Type 0 where
    pub origin : CheriNodeOrigin
    pub cap : CheriCap
    pub below : v < gt.num_vertices p.graph
    pub has_shape : shape (p.data_of v) ≡ some (origin, some cap)

  -- An edge of the provenance layer: it goes to a younger vertex, whose capability does not exceed
  -- that of the parent where both are valid.
  pub record Derives (p : Pgm) (u v : ℕ) : Type 0 where
    pub parent : IsNode p u
    pub child : IsNode p v
    pub older : u < v
    pub monotone : is_violation parent.cap child.cap ≡ ok false

  pub record IsProvGraph (p : Pgm) : Type 0 where
    pub initial : first_free ≤ gt.num_vertices p.graph
    pub targets : (e : ℕ) → e < gt.num_edges p.graph → gt.target p.graph e < gt.num_vertices p.graph
    pub nodes : (v : ℕ) → p.layer_prov v ≡ true → IsNode p v
    pub edges :
        (e : ℕ)
        → e < gt.num_edges p.graph
        → p.layer_prov (gt.target p.graph e) ≡ true
        → Derives p (gt.source p.graph e) (gt.target p.graph e)
    pub partials :
        (v : ℕ) (c : CheriCap)
        → shape (p.data_of v) ≡ some (partial, some c)
        → (v < first_free) × (c.valid ≡ false)
    pub roots : (v : ℕ) (c : CheriCap) → shape (p.data_of v) ≡ some (root, some c) → first_free ≤ v

  pub record IsSound (s : Core) : Type 0 where
    pub graph : IsProvGraph s.pgm
    pub regs : (i v : ℕ) → get_elem? s.reg_nodes i ≡ some (some v) → IsNode s.pgm v
    pub mem : (a v : ℕ) → lookup a s.vertex_map ≡ some v → IsNode s.pgm v
    pub keys : IsDict s.vertex_map

  -- The second graph has all vertices of the first, of the same shape and in the same layer.
  pub record Grows (p q : Pgm) : Type 0 where
    pub more : gt.num_vertices p.graph ≤ gt.num_vertices q.graph
    pub kept : (v : ℕ) → v < gt.num_vertices p.graph → shape (q.data_of v) ≡ shape (p.data_of v)
    pub layer : (v : ℕ) → v < gt.num_vertices p.graph → q.layer_prov v ≡ p.layer_prov v

  -- A step of the parser.
  pub record Next (s t : Core) : Type 0 where
    pub sound : IsSound t
    pub grows : Grows s.pgm t.pgm

  pub Grows-refl : (p : Pgm) → Grows p p
  Grows-refl p = record { more = omega arith; kept = λ v h. refl; layer = λ v h. refl }

  pub Grows-trans : {p q r : Pgm} → Grows p q → Grows q r → Grows p r
  Grows-trans {p} {q} {r} a b = record {
    more = omega (arith, a.more, b.more);
    kept = λ v h. b.kept v (omega (arith, a.more)) ∙ a.kept v h;
    layer = λ v h. b.layer v (omega (arith, a.more)) ∙ a.layer v h;
  }

  pub Next-refl : {s : Core} → IsSound s → Next s s
  Next-refl {s} h = record { sound = h; grows = Grows-refl s.pgm }

  pub Next-trans : {s t u : Core} → Next s t → Next t u → Next s u
  Next-trans a b = record { sound = b.sound; grows = Grows-trans a.grows b.grows }

  unfoldable pub Grows-IsNode : {p q : Pgm} {v : ℕ} → Grows p q → IsNode p v → IsNode q v
  Grows-IsNode {p} {q} {v} g n = record {
    origin = n.origin;
    cap = n.cap;
    below = omega (arith, g.more, n.below);
    has_shape = g.kept v n.below ∙ n.has_shape;
  }

  -- `IsNode` has one capability: that of the shape.
  pub Grows-Derives : {p q : Pgm} {u v : ℕ} → Grows p q → Derives p u v → Derives q u v
  unfolding Grows-IsNode
  Grows-Derives g d = record {
    parent = Grows-IsNode g d.parent;
    child = Grows-IsNode g d.child;
    older = d.older;
    monotone = d.monotone;
  }
