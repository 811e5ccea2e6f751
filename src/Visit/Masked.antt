-- ===== src/Visit/Masked.antt =====
-- What the masks of the filters hide.
use cheriplot.Base.{
  [], ◌∷◌, none, some, inl, inr, ℕ, ◌≡◌, refl, List, Bool, false, ◌==◌, if◌then◌else◌, ◌&&◌, true,
  ◌||◌, not, subst, ◌∙◌, sym, arith, ap, ◌↔◌, Option-cases, ◌⊎◌, Option, Bool-cases, opt_eq,
}
use cheriplot.Visit.Base.{Call, examine_vertex, examine_edge, run, mask_visit, ignore}
use cheriplot.Graph.{GraphTool}
use cheriplot.Model.Vertex.{ProvenanceVertexData}
use cheriplot.Model.Manager.{VertexData, Pgm, prov, absent}
use cheriplot.Visit.State.{Visit, put_mask}
use cheriplot.Parser.State.{as_prov, as_prov-data}
use cheriplot.Base.Errors.{M, ok}
use cheriplot.Base.Post.{
  Post, Post-if, Post-result, Post-bind, done, Post-choose, Post-mono, Post-ok, failed,
}
use cheriplot.Visit.Filters.{mask_if, is_null, null_test, filter_null_vertices}
use cheriplot.Model.Cap.{CheriCap}

-- The search examines the vertex.
abbrev pub examines : List Call → ℕ → Bool
examines [] v = false
examines (examine_vertex u ∷ cs) v = let rest = examines cs v in v == u || rest
examines (examine_edge e ∷ cs) v = examines cs v

module _ ⦃gt : GraphTool⦄ where
  -- The data of a vertex of the provenance layer passes a test.
  abbrev pub data_passes : (ProvenanceVertexData → Bool) → VertexData → Bool
  data_passes b (prov d) = b d
  data_passes b _ = false

  pub passes : (ProvenanceVertexData → Bool) → Pgm → ℕ → Bool
  passes b pgm v = if pgm.layer_prov v then data_passes b (pgm.data_of v) else false

  -- What one call of the filter does: to the mask, and to nothing else.
  abbrev Filtered : (ProvenanceVertexData → Bool) → ℕ → Visit → Visit → Type 0
  Filtered b v s t =
      (t ≡ record s { vertex_mask = t.vertex_mask })
      × ((u : ℕ) → t.vertex_mask u ≡ (s.vertex_mask u && not (u == v && passes b s.pgm u)))

  passes-prov :
      (b : ProvenanceVertexData → Bool) (pgm : Pgm) (v : ℕ) (d : ProvenanceVertexData)
      → pgm.layer_prov v ≡ true
      → pgm.data_of v ≡ prov d
      → passes b pgm v ≡ b d
  unfolding passes
  passes-prov b pgm v d h k = rw (h, k) refl

  passes-other :
      (b : ProvenanceVertexData → Bool) (pgm : Pgm) (v : ℕ)
      → pgm.layer_prov v ≡ false
      → passes b pgm v ≡ false
  unfolding passes
  passes-other b pgm v h = rw h refl

  hide :
      (b : ProvenanceVertexData → Bool) (v : ℕ) (s : Visit)
      → passes b s.pgm v ≡ true
      → Filtered b v s (put_mask v false s)
  hide b v s h = (refl, λ u. ground (arith, h))

  keep :
      (b : ProvenanceVertexData → Bool) (v : ℕ) (s : Visit)
      → passes b s.pgm v ≡ false
      → Filtered b v s s
  keep b v s h = (refl, λ u. ground (arith, h))

  hidden_next :
      (b : ProvenanceVertexData → Bool) (u v : ℕ) (cs : List Call) (s t r : Visit)
      → t.pgm ≡ s.pgm
      → t.vertex_mask u ≡ (s.vertex_mask u && not (u == v && passes b s.pgm u))
      → r.vertex_mask u ≡ (t.vertex_mask u && not (examines cs u && passes b t.pgm u))
      → r.vertex_mask u
        ≡ (s.vertex_mask u && not (examines (examine_vertex v ∷ cs) u && passes b s.pgm u))
  hidden_next b u v cs s t r e f h =
      let same : passes b t.pgm u ≡ passes b s.pgm u = ap (λ p. passes b p u) e in ground arith

  module _ (test : ℕ → ProvenanceVertexData → M Visit Bool) (b : ProvenanceVertexData → Bool)
      (tested : (v : ℕ) (d : ProvenanceVertexData) (s : Visit)
        → Post (λ c t. (t ≡ s) × (c ≡ b d)) (test v d s)) where
    mask_if-step : (v : ℕ) (s : Visit) → Post (λ _ t. Filtered b v s t) (mask_if test v s)
    unfolding mask_if
    mask_if-step v s =
        Post-if (s.pgm.layer_prov v) _ _ s
          (λ lp. Post-result (as_prov (s.pgm.data_of v)) s _ λ d e.
            Post-bind (tested v d s) λ c t same.
              let passed = passes-prov b s.pgm v d lp (as_prov-data _ d e) in
              Post-choose c _ t
                (λ hit. done (
                  subst (λ x. Filtered b v s (put_mask v false x)) (sym same.0)
                    (hide b v s (passed ∙ (sym same.1 ∙ hit)))))
                (λ miss.
                  subst (Filtered b v s) (sym same.0) (keep b v s (passed ∙ (sym same.1 ∙ miss)))))
          (λ other. done (keep b v s (passes-other b s.pgm v other)))

    -- The mask behind a search.
    abbrev Hidden : List Call → Visit → Visit → Type 0
    Hidden cs s t =
        (t ≡ record s { vertex_mask = t.vertex_mask })
        × ((u : ℕ) → t.vertex_mask u ≡ (s.vertex_mask u && not (examines cs u && passes b s.pgm u)))

    pub run-Hidden :
        (cs : List Call) (s : Visit)
        → Post (λ _ t. Hidden cs s t) (run (mask_visit (mask_if test) ignore) cs s)
    unfolding run mask_visit
    run-Hidden [] s = done (refl, λ u. ground arith)
    run-Hidden (examine_vertex v ∷ cs) s = Post-bind (mask_if-step v s) λ _ t f.
        Post-mono (run-Hidden cs t) λ _ r h. (
          h.0 ∙ ap (λ (x : Visit). record x { vertex_mask = r.vertex_mask }) f.0,
          λ u. hidden_next b u v cs s t r (ap (λ x. x.pgm) f.0) (f.1 u) (h.1 u),
        )
    run-Hidden (examine_edge e ∷ cs) s = run-Hidden cs s

  -- The tests of the filters as functions of the data; a capability of None raises.
  null_data : ProvenanceVertexData → Bool
  null_data d = elim d.cap [ none ↦ false | some c ↦ is_null c ]

  null_test-tested :
      (v : ℕ) (d : ProvenanceVertexData) (s : Visit)
      → Post (λ c t. (t ≡ s) × (c ≡ null_data d)) (null_test v d s)
  unfolding null_test null_data
  null_test-tested v d s = elim (Option-cases d.cap) [
    | inl e ↦ rw e failed
    | inr (c, e) ↦ rw e (done (refl, refl))
  ]

  -- A vertex of the provenance layer whose capability is empty at address 0, or not valid.
  pub record IsNullVertex (pgm : Pgm) (v : ℕ) : Type 0 where
    pub in_layer : pgm.layer_prov v ≡ true
    pub vertex_data : ProvenanceVertexData
    pub has_data : pgm.data_of v ≡ prov vertex_data
    pub capability : CheriCap
    pub has_cap : vertex_data.cap ≡ some capability
    pub null :
        ((capability.length ≡ some 0) × (capability.base ≡ some 0)) ⊎ (capability.valid ≡ false)

  opt_eq-some : (o : Option ℕ) (n : ℕ) → opt_eq o (some n) ≡ true → o ≡ some n
  opt_eq-some none n h = cc
  opt_eq-some (some m) n h = ground arith

  null-cases :
      (c : CheriCap)
      → is_null c ≡ true
      → ((c.length ≡ some 0) × (c.base ≡ some 0)) ⊎ (c.valid ≡ false)
  unfolding is_null
  null-cases c h = elim (Bool-cases c.valid) [
    | inl valid ↦ inl (opt_eq-some c.length 0 (ground arith), opt_eq-some c.base 0 (ground arith))
    | inr bad ↦ inr bad
  ]

  is_null_of :
      (c : CheriCap)
      → ((c.length ≡ some 0) × (c.base ≡ some 0)) ⊎ (c.valid ≡ false)
      → is_null c ≡ true
  unfolding is_null
  is_null_of c (inl (l, b)) = rw (l, b) refl
  is_null_of c (inr bad) = ground arith

  null_data-cases :
      (x : VertexData)
      → data_passes null_data x ≡ true
      → (d : ProvenanceVertexData) × (c : CheriCap) × (x ≡ prov d)
        × (d.cap ≡ some c)
        × (is_null c ≡ true)
  unfolding null_data
  null_data-cases absent h = cc
  null_data-cases (prov d) h = elim (Option-cases d.cap) [
    | inl e ↦ cc (rw e at h)
    | inr (c, e) ↦ (d, c, refl, e, rw e at h)
  ]
  null_data-cases (VertexData.call d) h = cc

  passes-null : (pgm : Pgm) (v : ℕ) → passes null_data pgm v ≡ true → IsNullVertex pgm v
  unfolding passes
  passes-null pgm v h = elim (Bool-cases (pgm.layer_prov v)) [
    | inl lp ↦
        let found = null_data-cases (pgm.data_of v) (rw lp at h) in
        record {
          in_layer = lp;
          vertex_data = found.0;
          has_data = found.2;
          capability = found.1;
          has_cap = found.3;
          null = null-cases found.1 found.4;
        }
    | inr other ↦ cc (rw other at h)
  ]

  null-passes : (pgm : Pgm) (v : ℕ) → IsNullVertex pgm v → passes null_data pgm v ≡ true
  unfolding passes null_data
  null-passes pgm v n = rw (n.in_layer, n.has_data, n.has_cap) (is_null_of n.capability n.null)

  -- If the visit that masks NULL capabilities does not raise, then it changes nothing but its mask,
  -- and a vertex is hidden by it exactly if the search examined it and it is a NULL vertex.
  pub filter_null_vertices_lem :
      (cs : List Call) (s t : Visit)
      → run filter_null_vertices cs (record s { vertex_mask = λ v. true }) ≡ ok (tt, t)
      → (t ≡ record s { vertex_mask = t.vertex_mask })
        × ((v : ℕ) → (t.vertex_mask v ≡ false) ↔ ((examines cs v ≡ true) × IsNullVertex s.pgm v))
  unfolding filter_null_vertices
  filter_null_vertices_lem cs s t ran =
      let fresh = record s { vertex_mask = λ v. true } in
      let h = Post-ok tt t (run-Hidden null_test null_data null_test-tested cs fresh) ran in
      (
        h.0,
        λ v. (
          λ hidden. let e = h.1 v in (ground arith, passes-null s.pgm v (ground arith)),
          λ both.
              let null = null-passes s.pgm v both.1 in
              let examined = both.0 in h.1 v ∙ rw (examined, null) refl,
        ),
      )
