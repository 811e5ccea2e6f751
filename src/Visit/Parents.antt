-- ===== src/Visit/Parents.antt =====
-- The walk of DetectStackCapability.check_parent towards the roots ends, and what it finds.
use cheriplot.Base.{
  [], ◌∷◌, some, inl, inr, ℕ, zero, suc, ◌≡◌, ◌<◌, refl, arith, List, Bool, Bool-cases, true, ◌↔◌,
  Option-cases, false, ◌==◌, subst, ◌⊎◌, ◌≢◌, ◌∙◌, sym, ap, Among,
}
use cheriplot.Graph.{GraphTool}
use cheriplot.Visit.State.{Visit}
use cheriplot.Visit.Stack.{first_parent, check_parent}
use cheriplot.Base.Int.{pos}

module _ ⦃gt : GraphTool⦄ where
  -- An edge leads from a lower index to a higher one.
  abbrev pub Rises : Visit → Type 0
  Rises s = (v e : ℕ) → Among e (gt.in_edges s.pgm.graph v) → gt.source s.pgm.graph e < v

  -- The vertex `root` is on the way from a vertex over its first parents.
  pub data Above (s : Visit) (root : ℕ) : ℕ → Type 0 where
    parent : {v : ℕ} → first_parent s (gt.in_edges s.pgm.graph v) ≡ some root → Above s root v
    higher :
        {v : ℕ} (u : ℕ)
        → first_parent s (gt.in_edges s.pgm.graph v) ≡ some u
        → Above s root u
        → Above s root v

  first_parent-lt :
      (s : Visit) (v u : ℕ) (es : List ℕ)
      → ((e : ℕ) → Among e es → gt.source s.pgm.graph e < v)
      → first_parent s es ≡ some u
      → u < v
  unfolding first_parent
  first_parent-lt s v u [] h found = cc
  first_parent-lt s v u (e ∷ es) h found =
      elim (Bool-cases (s.pgm.layer_prov (gt.source s.pgm.graph e))) [
        | inl lp ↦
            let same : gt.source s.pgm.graph e ≡ u = cc (rw lp at found) in
            subst (λ x. x < v) same (h e (inl refl))
        | inr other ↦ first_parent-lt s v u es (λ x a. h x (inr a)) (rw other at found)
      ]

  -- What the relation says of the first parent.
  Above-cases :
      (s : Visit) (root v : ℕ)
      → Above s root v
      → (u : ℕ) × (first_parent s (gt.in_edges s.pgm.graph v) ≡ some u)
        × ((u ≡ root) ⊎ Above s root u)
  Above-cases s root v (parent h) = (root, h, inl refl)
  Above-cases s root v (higher u h a) = (u, h, inr a)

  Above-up :
      (s : Visit) (root v u : ℕ)
      → first_parent s (gt.in_edges s.pgm.graph v) ≡ some u
      → u ≢ root
      → Above s root v
      → Above s root u
  Above-up s root v u h other a =
      let c = Above-cases s root v a in
      let same : c.0 ≡ u = cc (c.1, h) in
      elim c.2 [ inl e ↦ absurd (other (sym same ∙ e)) | inr up ↦ subst (Above s root) same up ]

  -- Where edges lead from lower indices to higher ones, the recursion ends within one more level than
  -- the index of its vertex, and it returns whether the vertex of the stack is on the way over the
  -- first parents.
  pub check_parent-total :
      (fuel : ℕ) (s : Visit) (root v : ℕ)
      → Rises s
      → v < fuel
      → (b : Bool) × (check_parent fuel s (pos root) v ≡ some b) × ((b ≡ true) ↔ Above s root v)
  unfolding check_parent
  check_parent-total zero s root v rises h = absurd (omega arith)
  check_parent-total (suc fuel) s root v rises h =
      elim (Option-cases (first_parent s (gt.in_edges s.pgm.graph v))) [
        | inl top ↦ (
          false,
          rw (top, check_parent) refl,
          (λ e. cc, λ a. let c = Above-cases s root v a in cc (top, c.1)),
        )
        | inr (u, found) ↦
            let low = first_parent-lt s v u (gt.in_edges s.pgm.graph v) (rises v) found in
            let above = check_parent-total fuel s root u rises (omega arith) in
            elim (Bool-cases (u == root)) [
              | inl same ↦
                  let e : u ≡ root = ground arith in
                  (
                    true,
                    rw (found, check_parent, same) refl,
                    (λ t. parent (found ∙ ap some e), λ a. refl),
                  )
              | inr other ↦ (
                above.0,
                rw (found, check_parent, other) above.1,
                (
                  λ t. higher u found (above.2.0 t),
                  λ a. above.2.1 (Above-up s root v u found (λ e. ground arith) a),
                ),
              )
            ]
      ]
