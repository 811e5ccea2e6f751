-- ===== src/Visit/Marks.antt =====
-- What the edges of the provenance layer mark below a vertex, in the order in which they are examined.
use cheriplot.Base.{
  [], ◌∷◌, inl, inr, ℕ, ◌≡◌, refl, List, ◌⊎◌, Bool, if◌then◌else◌, true, false, ◌==◌, arith, update,
  ◌&&◌, Bool-cases, subst, ap, sym, ◌∙◌,
}
use cheriplot.Visit.Base.{Call, examine_edge, examine_vertex}
use cheriplot.Graph.{GraphTool}
use cheriplot.Model.Manager.{Pgm}

-- The edges that a search examines, in its order.
abbrev pub edges_of : List Call → List ℕ
edges_of [] = []
edges_of (examine_edge e ∷ cs) = e ∷ edges_of cs
edges_of (examine_vertex v ∷ cs) = edges_of cs

module _ ⦃gt : GraphTool⦄ where
  module _ (pgm : Pgm) (root : ℕ) where
    abbrev pub source_of : ℕ → ℕ
    source_of e = gt.source pgm.graph e

    abbrev pub target_of : ℕ → ℕ
    target_of e = gt.target pgm.graph e

    abbrev pub is_prov : ℕ → Bool
    is_prov e = if pgm.layer_prov (source_of e) then pgm.layer_prov (target_of e) else false

    -- Some edges of the list, in its order, form a walk in the provenance layer.
    abbrev pub Walk : List ℕ → ℕ → ℕ → Type 0
    Walk [] v w = v ≡ w
    Walk (e ∷ es) v w =
        Walk es v w ⊎ ((is_prov e ≡ true) × (source_of e ≡ v) × Walk es (target_of e) w)

    -- An edge of the list leaves the root.
    abbrev pub IsLeft : List ℕ → Type 0
    IsLeft [] = ⊥
    IsLeft (e ∷ es) = (source_of e ≡ root) ⊎ IsLeft es

    -- The marks that a list of edges leaves, where some vertices are marked before.
    abbrev pub Marked : (ℕ → Bool) → List ℕ → ℕ → Type 0
    Marked mask es w = ((v : ℕ) × (mask v ≡ true) × Walk es v w) ⊎ (IsLeft es × Walk es root w)

    -- What an edge does to the mask.
    unfoldable pub mark : ℕ → (ℕ → Bool) → ℕ → Bool
    mark e mask =
        let rooted = if source_of e == root then update mask (source_of e) true else mask in
        if is_prov e && rooted (source_of e) then update rooted (target_of e) true else rooted

    unfoldable pub mark_all : List ℕ → (ℕ → Bool) → ℕ → Bool
    unfolding mark
    mark_all [] mask = mask
    mark_all (e ∷ es) mask = mark_all es (mark e mask)

    mark-old : (e : ℕ) (mask : ℕ → Bool) (w : ℕ) → mask w ≡ true → mark e mask w ≡ true
    unfolding mark
    mark-old e mask w h = ground arith

    mark-root : (e : ℕ) (mask : ℕ → Bool) → source_of e ≡ root → mark e mask root ≡ true
    unfolding mark
    mark-root e mask h = ground arith

    mark-target :
        (e : ℕ) (mask : ℕ → Bool)
        → is_prov e ≡ true
        → mask (source_of e) ≡ true
        → mark e mask (target_of e) ≡ true
    unfolding mark
    mark-target e mask p h = ground arith

    mark-target_root :
        (e : ℕ) (mask : ℕ → Bool)
        → is_prov e ≡ true
        → source_of e ≡ root
        → mark e mask (target_of e) ≡ true
    unfolding mark
    mark-target_root e mask p h = ground arith

    -- Where a mark comes from.
    mark-cases :
        (e : ℕ) (mask : ℕ → Bool) (w : ℕ)
        → mark e mask w ≡ true
        → (mask w ≡ true)
          ⊎ (((source_of e ≡ root) × (w ≡ root))
              ⊎ ((is_prov e ≡ true)
                  × (target_of e ≡ w)
                  × ((mask (source_of e) ≡ true) ⊎ (source_of e ≡ root))))
    unfolding mark
    mark-cases e mask w h = elim (Bool-cases (mask w)) [
      | inl old_mark ↦ inl old_mark
      | inr fresh ↦ elim (Bool-cases (source_of e == root)) [
        | inl rooted ↦ elim (Bool-cases (w == root)) [
          | inl at_root ↦ inr (inl (ground arith, ground arith))
          | inr elsewhere ↦ inr (inr (ground arith, ground arith, inr (ground arith)))
        ]
        | inr other ↦ inr (inr (ground arith, ground arith, inl (ground arith)))
      ]
    ]

    stay : (es : List ℕ) (v : ℕ) → Walk es v v
    stay [] v = refl
    stay (e ∷ es) v = inl (stay es v)

    from_mark :
        (e : ℕ) (es : List ℕ) (mask : ℕ → Bool) (w : ℕ)
        → Marked (mark e mask) es w
        → Marked mask (e ∷ es) w
    from_mark e es mask w (inr (left, walk)) = inr (inr left, inl walk)
    from_mark e es mask w (inl (v, m, walk)) = elim (mark-cases e mask v m) [
      | inl before ↦ inl (v, before, inl walk)
      | inr new ↦ elim new [
        | inl at_root ↦ inr (inl at_root.0, inl (subst (λ x. Walk es x w) at_root.1 walk))
        | inr led ↦
            let walk' = subst (λ x. Walk es x w) (sym led.1) walk in
            elim led.2 [
              | inl before ↦ inl (source_of e, before, inr (led.0, refl, walk'))
              | inr left ↦ inr (inl left, inr (led.0, left, walk'))
            ]
      ]
    ]

    -- A walk from a vertex that the first edge leaves marked.
    to_mark_old :
        (e : ℕ) (es : List ℕ) (mask : ℕ → Bool) (v w : ℕ)
        → mask v ≡ true
        → Walk (e ∷ es) v w
        → Marked (mark e mask) es w
    to_mark_old e es mask v w m (inl walk) = inl (v, mark-old e mask v m, walk)
    to_mark_old e es mask v w m (inr (p, from, walk)) =
        inl (target_of e, mark-target e mask p (ap mask from ∙ m), walk)

    to_mark_root :
        (e : ℕ) (es : List ℕ) (mask : ℕ → Bool) (w : ℕ)
        → IsLeft (e ∷ es)
        → Walk (e ∷ es) root w
        → Marked (mark e mask) es w
    to_mark_root e es mask w left (inr (p, from, walk)) =
        inl (target_of e, mark-target_root e mask p from, walk)
    to_mark_root e es mask w (inl from) (inl walk) = inl (root, mark-root e mask from, walk)
    to_mark_root e es mask w (inr later) (inl walk) = inr (later, walk)

    pub mark_all_sound :
        (es : List ℕ) (mask : ℕ → Bool) (w : ℕ) → mark_all es mask w ≡ true → Marked mask es w
    unfolding mark_all
    mark_all_sound [] mask w h = inl (w, h, refl)
    mark_all_sound (e ∷ es) mask w h = from_mark e es mask w (mark_all_sound es (mark e mask) w h)

    pub mark_all_complete :
        (es : List ℕ) (mask : ℕ → Bool) (w : ℕ) → Marked mask es w → mark_all es mask w ≡ true
    unfolding mark_all
    mark_all_complete [] mask w (inl (v, m, same)) = subst (λ x. mask x ≡ true) same m
    mark_all_complete [] mask w (inr (left, walk)) = absurd left
    mark_all_complete (e ∷ es) mask w (inl (v, m, walk)) =
        mark_all_complete es (mark e mask) w (to_mark_old e es mask v w m walk)
    mark_all_complete (e ∷ es) mask w (inr (left, walk)) =
        mark_all_complete es (mark e mask) w (to_mark_root e es mask w left walk)
