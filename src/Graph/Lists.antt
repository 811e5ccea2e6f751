-- ===== src/Graph/Lists.antt =====
-- A graph as a list of its edges: the interface can be met, and the tests and examples run on it.
use cheriplot.Base.{
  ℕ, zero, suc, ◌+◌, ◌≡◌, refl, List, [], ◌∷◌, ◌++◌, arith, ◌==◌, Bool, Option, none, some, ◌&&◌,
  ◌||◌, if◌then◌else◌, length, length-append, Among, ◌<◌, Bool-cases, inl, inr, true, sym, subst,
}
use cheriplot.Graph.Interface.{GraphTool}

pub record EdgeList : Type 0 where
  pub vertices : ℕ
  pub edges : List (ℕ × ℕ)

abbrev end_at : (ℕ × ℕ → ℕ) → List (ℕ × ℕ) → ℕ → ℕ
end_at f [] e = 0
end_at f (x ∷ xs) zero = f x
end_at f (x ∷ xs) (suc e) = end_at f xs e

abbrev incoming : List (ℕ × ℕ) → ℕ → List ℕ
incoming [] w = []
incoming ((u, v) ∷ es) w = let rest = incoming es w in if w == v then u ∷ rest else rest

abbrev outgoing : List (ℕ × ℕ) → ℕ → List ℕ
outgoing [] w = []
outgoing ((u, v) ∷ es) w = let rest = outgoing es w in if w == u then v ∷ rest else rest

abbrev touching : List (ℕ × ℕ) → ℕ → ℕ → List ℕ
touching [] e w = []
touching ((u, v) ∷ es) e w =
    let rest = touching es (e + 1) w in if w == u || w == v then e ∷ rest else rest

abbrev matching : (ℕ × ℕ → Bool) → List (ℕ × ℕ) → ℕ → List ℕ
matching test [] e = []
matching test (x ∷ es) e = let rest = matching test es (e + 1) in if test x then e ∷ rest else rest

abbrev first : List ℕ → Option ℕ
first [] = none
first (e ∷ es) = some e

pub end_at-snoc :
    (f : ℕ × ℕ → ℕ) (es : List (ℕ × ℕ)) (x : ℕ × ℕ) (e : ℕ)
    → end_at f (es ++ x ∷ []) e ≡ (if e == length es then f x else end_at f es e)
end_at-snoc f [] x zero = refl
end_at-snoc f [] x (suc e) = ground arith
end_at-snoc f (y ∷ es) x zero = ground arith
end_at-snoc f (y ∷ es) x (suc e) = ground (arith, end_at-snoc f es x e)

touching-lt : (es : List (ℕ × ℕ)) (i w e : ℕ) → Among e (touching es i w) → e < i + length es
touching-lt [] i w e h = absurd h
touching-lt ((u, v) ∷ es) i w e h = elim (Bool-cases (w == u || w == v)) [
  | inl near ↦ elim (rw near at h) [
    | inl same ↦ omega arith
    | inr rest ↦ omega (arith, touching-lt es (i + 1) w e rest)
  ]
  | inr far ↦ omega (arith, touching-lt es (i + 1) w e (rw far at h))
]

pub all_edges_bound : (es : List (ℕ × ℕ)) (w e : ℕ) → Among e (touching es 0 w) → e < length es
all_edges_bound es w e h = omega (arith, touching-lt es 0 w e h)

pub length-snoc : (es : List (ℕ × ℕ)) (x : ℕ × ℕ) → length (es ++ x ∷ []) ≡ suc (length es)
length-snoc es x = omega (arith, length-append es (x ∷ []))

matching-all :
    (test : ℕ × ℕ → Bool) (es : List (ℕ × ℕ)) (i e w : ℕ)
    → ((x : ℕ × ℕ) → w ≡ x.0 → test x ≡ true)
    → e < length es
    → end_at (λ x. x.0) es e ≡ w
    → Among (i + e) (matching test es i)
matching-all test [] i e w h k l = absurd (omega arith)
matching-all test (x ∷ es) i zero w h k l = rw (h x (sym l)) (inl (omega arith))
matching-all test (x ∷ es) i (suc e) w h k l =
    let later = matching-all test es (i + 1) e w h (omega arith) l in
    let same : i + 1 + e ≡ i + suc e = omega arith in
    let moved = subst (λ n. Among n (matching test es (i + 1))) same later in
    elim (Bool-cases (test x)) [ inl y ↦ rw y (inr moved) | inr y ↦ rw y moved ]

pub out_edges-complete :
    (es : List (ℕ × ℕ)) (w e : ℕ)
    → e < length es
    → end_at (λ x. x.0) es e ≡ w
    → Among e (matching (λ x. w == x.0) es 0)
out_edges-complete es w e h k =
    let same : 0 + e ≡ e = omega arith in
    subst (λ n. Among n (matching (λ x. w == x.0) es 0)) same
      (matching-all (λ x. w == x.0) es 0 e w (λ x l. ground arith) h k)

instance abbrev pub list_graph : GraphTool
list_graph = record {
  Graph = EdgeList;
  empty = record { vertices = 0; edges = [] };
  num_vertices = λ g. g.vertices;
  num_edges = λ g. length g.edges;
  add_vertex = λ g. record g { vertices = suc g.vertices };
  add_edge = λ g u v. record g { edges = g.edges ++ (u, v) ∷ [] };
  source = λ g. end_at (λ x. x.0) g.edges;
  target = λ g. end_at (λ x. x.1) g.edges;
  all_edges = λ g. touching g.edges 0;
  in_edges = λ g w. matching (λ x. w == x.1) g.edges 0;
  out_edges = λ g w. matching (λ x. w == x.0) g.edges 0;
  edge_between = λ g u w. first (matching (λ x. u == x.0 && w == x.1) g.edges 0);
  in_neighbours = λ g. incoming g.edges;
  out_neighbours = λ g. outgoing g.edges;
  num_vertices-empty = refl;
  num_edges-empty = refl;
  num_vertices-add_vertex = λ g. refl;
  num_vertices-add_edge = λ g u v. refl;
  num_edges-add_vertex = λ g. refl;
  num_edges-add_edge = λ g u v. length-snoc g.edges (u, v);
  source-add_vertex = λ g e. refl;
  target-add_vertex = λ g e. refl;
  source-add_edge = λ g u v e. end_at-snoc (λ x. x.0) g.edges (u, v) e;
  target-add_edge = λ g u v e. end_at-snoc (λ x. x.1) g.edges (u, v) e;
  all_edges-lt = λ g w e h. all_edges_bound g.edges w e h;
  out_edges-all = λ g w e h k. out_edges-complete g.edges w e h k;
}
