-- ===== src/Parser/Sound/Initial.antt =====
-- The state that a worker starts with satisfies the invariant.
use cheriplot.Base.{
  none, some, false, ℕ, get_elem?, ◌≡◌, ◌<◌, ◌+◌, suc, if◌then◌else◌, ◌≤◌, arith, ◌∙◌, leb, zero,
  ◌&&◌, refl, ltb, update, ◌⊎◌, inl, inr, Option, sym,
}
use cheriplot.Graph.{GraphTool}
use cheriplot.Model.Manager.{VertexData, prov, absent}
use cheriplot.Parser.Initial.{
  add_vertices, new_core, new_worker, fill, as_nodes, range, new_pgm, partial_data,
}
use cheriplot.Parser.Shape.{IsSound, first_free, IsNode, shape}
use cheriplot.Parser.Sound.Running.{IsRunning}
use cheriplot.Parser.Sound.Frames.{add_call_vertex-Next}
use cheriplot.Model.Vertex.{call_data, partial, CheriNodeOrigin, root}
use cheriplot.Model.Cap.{empty_cap, CheriCap}

fill-range :
    (n k : ℕ) (f : ℕ → VertexData) (v : ℕ)
    → fill (range k n) f v ≡ (if leb k v && ltb v (k + n) then prov partial_data else f v)
fill-range zero k f v = ground arith
fill-range (suc n) k f v = ground (arith, fill-range n (suc k) (update f k (prov partial_data)) v)

fill-in :
    (n k v : ℕ)
    → k ≡ 0
    → v < n
    → shape (fill (range k n) (λ w. absent) v) ≡ some (partial, some empty_cap)
fill-in n k v z h = ground (arith, fill-range n k (λ w. absent) v)

fill-out : (n k v : ℕ) → k ≡ 0 → n ≤ v → shape (fill (range k n) (λ w. absent) v) ≡ none
fill-out n k v z h = ground (arith, fill-range n k (λ w. absent) v)

partial-valid :
    (o : CheriNodeOrigin) (c : CheriCap)
    → ◌≡◌ {A = Option (CheriNodeOrigin × Option CheriCap)}
        (some (partial, some empty_cap))
        (some (o, some c))
    → (o ≡ partial) × (c.valid ≡ false)
partial-valid o c e = ground arith

lt_or_ge : (m n : ℕ) → (m < n) ⊎ (n ≤ m)
lt_or_ge m zero = inr (omega arith)
lt_or_ge zero (suc n) = inl (omega arith)
lt_or_ge (suc m) (suc n) = elim (lt_or_ge m n) [
  | inl h ↦ inl (omega (arith, h))
  | inr h ↦ inr (omega (arith, h))
]

absurd_value : {A : Type 0} {a : A} → ◌≡◌ {A = Option A} none (some a) → ⊥
absurd_value e = ground arith

root_partial : ¬ (root ≡ partial)
root_partial e = ground arith

range-get :
    (n k i v : ℕ) → get_elem? (as_nodes (range k n)) i ≡ some (some v) → (k ≤ v) × (v < k + n)
range-get zero k i v e = cc
range-get (suc n) k zero v e = let w : k ≡ v = cc in (omega (arith, w), omega (arith, w))
range-get (suc n) k (suc i) v e =
    let r = range-get n (suc k) i v e in (omega (arith, r.0), omega (arith, r.1))

module _ ⦃gt : GraphTool⦄ where
  num_vertices-add_vertices :
      (n : ℕ) (g : gt.Graph) → gt.num_vertices (add_vertices n g) ≡ gt.num_vertices g + n
  num_vertices-add_vertices zero g = omega arith
  num_vertices-add_vertices (suc n) g =
      omega (arith, num_vertices-add_vertices n (gt.add_vertex g), gt.num_vertices-add_vertex g)

  num_edges-add_vertices : (n : ℕ) (g : gt.Graph) → gt.num_edges (add_vertices n g) ≡ gt.num_edges g
  num_edges-add_vertices zero g = refl
  num_edges-add_vertices (suc n) g =
      num_edges-add_vertices n (gt.add_vertex g) ∙ gt.num_edges-add_vertex g

  filled :
      (v : ℕ)
      → v < first_free
      → shape ((new_core new_pgm).pgm.data_of v) ≡ some (partial, some empty_cap)
  unfolding new_core
  filled v h = fill-in 65 (gt.num_vertices gt.empty) v gt.num_vertices-empty h

  unfilled : (v : ℕ) → first_free ≤ v → shape ((new_core new_pgm).pgm.data_of v) ≡ none
  unfolding new_core
  unfilled v h = fill-out 65 (gt.num_vertices gt.empty) v gt.num_vertices-empty h

  shape-cases :
      (v : ℕ) (o : CheriNodeOrigin) (c : CheriCap)
      → shape ((new_core new_pgm).pgm.data_of v) ≡ some (o, some c)
      → (v < first_free) × (o ≡ partial) × (c.valid ≡ false)
  shape-cases v o c e = elim (lt_or_ge v first_free) [
    | inl h ↦ let p = partial-valid o c (sym (filled v h) ∙ e) in (h, p.0, p.1)
    | inr h ↦ absurd (absurd_value (sym (unfilled v h) ∙ e))
  ]

  partial_node : (v : ℕ) → v < first_free → IsNode (new_core new_pgm).pgm v
  unfolding new_core
  partial_node v h = record {
    origin = partial;
    cap = empty_cap;
    below = omega (arith, num_vertices-add_vertices 65 gt.empty, gt.num_vertices-empty);
    has_shape = filled v h;
  }

  new_core-IsSound : IsSound (new_core new_pgm)
  unfolding new_core
  new_core-IsSound = record {
    graph = record {
      initial = omega (arith, num_vertices-add_vertices 65 gt.empty);
      targets =
          λ e h. absurd (omega (arith, num_edges-add_vertices 65 gt.empty, gt.num_edges-empty));
      nodes = λ v l. cc;
      edges = λ e h l. cc;
      partials = λ v c e. let r = shape-cases v partial c e in (r.0, r.2);
      roots = λ v c e. absurd (root_partial (shape-cases v root c e).1);
    };
    regs = λ i v e.
        partial_node v
          (omega (arith, (range-get 65 (gt.num_vertices gt.empty) i v e).1, gt.num_vertices-empty));
    mem = λ a v e. cc;
    keys = tt;
  }

  -- A new worker satisfies the invariant.
  pub new_worker-IsRunning : (size : ℕ) → IsRunning (new_worker size)
  unfolding new_worker
  new_worker-IsRunning size =
      let a = add_call_vertex-Next (call_data none) (new_core new_pgm) new_core-IsSound in
      record { sound = a.0.sound; saved = tt; frames = (a.1, tt); stack = refl }
