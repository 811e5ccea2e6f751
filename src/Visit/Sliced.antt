-- ===== src/Visit/Sliced.antt =====
-- What ProvGraphTimeSlice of provenance/visit/slice.py shows.
use cheriplot.Graph.{GraphTool}
use cheriplot.Visit.Slice.{Slice, slice_vertex, slice_vertices, time_slice}
use cheriplot.Visit.State.{Visit, put_mask}
use cheriplot.Visit.Base.{View}
use cheriplot.Base.{
  false, Bool, ℕ, ◌≡◌, List, true, ◌↔◌, ◌⊎◌, arith, ◌∷◌, inl, Bool-cases, subst, refl, inr, [], sym,
  ◌∙◌, ◌==◌, Among, ◌<◌, ltb,
}
use cheriplot.Model.Vertex.{ProvenanceVertexData}
use cheriplot.Model.Manager.{Pgm, prov}
use cheriplot.Base.Post.{
  Post, Post-bind, done, Post-if, Post-result, Post-ok, Post-check, Post-mono,
}
use cheriplot.Parser.State.{as_prov, as_prov-data}
use cheriplot.Base.Errors.{ok, assertion}
use cheriplot.Visit.SliceTimes.{
  InSlice, Matches, and_iff, apart, absurd_bool, matches-Matches, prov-injective,
}

module _ ⦃gt : GraphTool⦄ where
  -- What the mask says behind the vertices of a list.
  abbrev IsSliced : Slice → List ℕ → Visit → Visit → Type 0
  IsSliced f vs s t =
      (t.pgm ≡ s.pgm)
      × ((w : ℕ)
          → (t.vertex_mask w ≡ true)
            ↔ (InSlice f s.pgm w × (Among w vs ⊎ (s.vertex_mask w ≡ true))))

  -- Nothing outside the slice is in the mask.
  abbrev IsWithinSlice : Slice → Visit → Type 0
  IsWithinSlice f s = (w : ℕ) → s.vertex_mask w ≡ true → InSlice f s.pgm w

  put_mask-IsSliced :
      (f : Slice) (v : ℕ) (b : Bool) (d : ProvenanceVertexData) (s : Visit)
      → IsWithinSlice f s
      → s.pgm.layer_prov v ≡ true
      → s.pgm.data_of v ≡ prov d
      → ((b ≡ true) ↔ Matches f d)
      → IsSliced f (v ∷ []) s (put_mask v b s)
  put_mask-IsSliced f v b d s inside layer given m = (
    refl,
    λ w. elim (Bool-cases (w == v)) [
      | inl here ↦
          let same : w ≡ v = ground arith in
          rw here (
            λ h. (subst (InSlice f s.pgm) (sym same) (layer, d, given, m.0 h), inl (inl same)),
            λ c.
                let e : prov c.0.1 ≡ prov d = cc (c.0.2, given, same) in
                m.1 (subst (Matches f) (prov-injective c.0.1 d e) c.0.3),
          )
      | inr other ↦ rw other (
        λ h. (inside w h, inr h),
        λ c. elim c.1 [
          | inl y ↦ elim y [ inl same ↦ absurd (apart w v other same) | inr z ↦ absurd z ]
          | inr h ↦ h
        ],
      )
    ],
  )

  slice_vertex-IsSliced :
      (f : Slice) (v : ℕ) (s : Visit)
      → IsWithinSlice f s
      → Post (λ _ t. IsSliced f (v ∷ []) s t) (slice_vertex f v s)
  unfolding slice_vertex
  slice_vertex-IsSliced f v s inside =
      Post-if (s.pgm.layer_prov v) _ _ s
        (λ layer. Post-result (as_prov (s.pgm.data_of v)) s _ λ d e.
          Post-bind (matches-Matches f d s) λ b t h. done (
            subst (λ x. IsSliced f (v ∷ []) s (put_mask v b x)) (sym h.0)
              (put_mask-IsSliced f v b d s inside layer (as_prov-data _ d e) h.1)))
        λ other. done (
          refl,
          λ w. (
            λ h. (inside w h, inr h),
            λ c. elim c.1 [
              | inl y ↦ elim y [
                | inl same ↦
                    absurd
                      (absurd_bool (sym other ∙ subst (λ x. s.pgm.layer_prov x ≡ true) same c.0.0))
                | inr z ↦ absurd z
              ]
              | inr h ↦ h
            ],
          ),
        )

  slice_vertices-IsSliced :
      (f : Slice) (vs : List ℕ) (s : Visit)
      → IsWithinSlice f s
      → Post (λ _ t. IsSliced f vs s t) (slice_vertices f vs s)
  unfolding slice_vertices
  slice_vertices-IsSliced f [] s inside =
      done (refl, λ w. (λ h. (inside w h, inr h), λ c. elim c.1 [ inl y ↦ absurd y | inr h ↦ h ]))
  slice_vertices-IsSliced f (v ∷ vs) s inside =
      Post-bind (slice_vertex-IsSliced f v s inside) λ _ t one.
        let inside' : IsWithinSlice f t =
          λ w h. subst (λ p. InSlice f p w) (sym one.0) (((one.1 w).0 h).0) in
        Post-mono (slice_vertices-IsSliced f vs t inside') λ _ r all. (
          all.0 ∙ one.0,
          λ w. (
            λ h.
                let found = (all.1 w).0 h in
                (
                  subst (λ p. InSlice f p w) one.0 found.0,
                  elim found.1 [
                    | inl y ↦ inl (inr y)
                    | inr y ↦ elim ((one.1 w).0 y).1 [
                      | inl z ↦ inl (elim z [ inl same ↦ inl same | inr z' ↦ absurd z' ])
                      | inr z ↦ inr z
                    ]
                  ],
                ),
            λ c.
                let here = subst (λ p. InSlice f p w) (sym one.0) c.0 in
                (all.1 w).1 (
                  here,
                  elim c.1 [
                    | inl y ↦ elim y [
                      | inl same ↦ inr ((one.1 w).1 (c.0, inl (inl same)))
                      | inr later ↦ inl later
                    ]
                    | inr h ↦ inr ((one.1 w).1 (c.0, inr h))
                  ],
                ),
          ),
        )

  -- If a slice is made and run without raising, its start is before its end, and it shows a vertex
  -- exactly if the view shows it, the search examines it, and it is a vertex of the provenance layer
  -- that was made, or dereferenced, or loaded, stored or deleted in memory between the two times, of
  -- which the slice tells those that it was made for.
  pub time_slice-InSlice :
      (f : Slice) (examined : Pgm → View → List ℕ) (view shown : View) (s t : Visit)
      → time_slice f examined view s ≡ ok (shown, t)
      → (f.start < f.end_time)
        × ((v : ℕ)
            → (shown v ≡ true)
              ↔ ((view v ≡ true) × (InSlice f s.pgm v × Among v (examined s.pgm view))))
  unfolding time_slice
  time_slice-InSlice f examined view shown s t ran =
      Post-ok shown t
        (Post-check
          {Q = λ (x : View) y.
            (f.start < f.end_time)
            × ((v : ℕ)
                → (x v ≡ true)
                  ↔ ((view v ≡ true) × (InSlice f s.pgm v × Among v (examined s.pgm view))))}
          (ltb f.start f.end_time) assertion s _
          λ order.
            let fresh = record s { vertex_mask = λ v. false } in
            Post-bind
              (slice_vertices-IsSliced f (examined s.pgm view) fresh
                (λ w h. absurd (absurd_bool h)))
              λ _ r sliced. done (
                ground arith,
                λ v. and_iff (view v) (r.vertex_mask v) (
                  λ h.
                      let found = (sliced.1 v).0 h in
                      (found.0, elim found.1 [ inl y ↦ y | inr y ↦ absurd (absurd_bool y) ]),
                  λ c. (sliced.1 v).1 (c.0, inl c.1),
                ),
              ))
        ran
