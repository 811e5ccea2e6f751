-- ===== src/Axis/Loop.antt =====
-- The rounds of `_merge`: where `bisect` finds an interval, what `extend` makes of it, and that the
-- loop ends.
use cheriplot.Axis.Ranges.{Range, at, SortedRanges}
use cheriplot.Axis.Collapse.{absorb, extend, merge_loop, merge}
use Prim.Native.Nat.{max}
use cheriplot.Base.{
  List, ℕ, ◌<◌, ◌≡◌, length, suc, ◌≤◌, ◌-◌, ◌+◌, Bool-cases, arith, some, ltb, ◌==◌, ◌++◌, ◌∷◌, inl,
  [], inr, zero, refl, leb, false, true, ◌⊎◌, ◌∙◌,
}

leb-le : (a b : ℕ) → a ≤ b → leb a b ≡ true
leb-le a b h = ground arith

leb-gt : (a b : ℕ) → b < a → leb a b ≡ false
leb-gt a b h = ground arith

not_zero : (b : ℕ) → b ≡ suc (b - 1) → (b == 0) ≡ false
not_zero b h = ground arith

module _ ⦃sr : SortedRanges⦄ (intervals : List Range) where
  abbrev pub merged : List Range
  merged = sr.sorted_list intervals

  -- Where the interval ahead starts within the current one, the search finds an index behind it.
  pub bisect-later :
      (curr : Range) (idx : ℕ)
      → idx < length merged
      → (at merged idx).start ≤ curr.end_
      → idx < sr.bisect merged curr.end_
  bisect-later curr idx h k = elim (Bool-cases (ltb idx (sr.bisect merged curr.end_))) [
    | inl e ↦ ground arith
    | inr e ↦
        let above = sr.bisect-above intervals curr.end_ idx (ground arith) h in absurd (omega arith)
  ]

  -- The interval takes the end of the last one that starts within it, if that is larger.
  pub extend_end :
      (curr : Range) (b : ℕ)
      → b ≡ suc (b - 1)
      → sr.bisect merged curr.end_ ≡ b
      → (extend merged curr b).end_ ≡ max curr.end_ (at merged (b - 1)).end_
  unfolding extend
  extend_end curr b positive e =
      let within = sr.bisect-le intervals curr.end_ in
      let below = sr.bisect-below intervals curr.end_ (b - 1) (omega arith) in
      elim (Bool-cases (b == length merged)) [
        | inl all ↦ rw (all, leb-le (at merged (b - 1)).start curr.end_ below) refl
        | inr some_left ↦
            let above = sr.bisect-above intervals curr.end_ b (omega arith) (ground arith) in
            rw (some_left, leb-gt (at merged b).start curr.end_ above, not_zero b positive) refl
      ]

  merge-nil :
      (rs : List Range) → merged ≡ rs → length rs ≡ 0 → (merge intervals ≡ some []) × (merged ≡ [])
  unfolding merge
  merge-nil [] e h = (rw (e, merge) refl, e)
  merge-nil (r ∷ rs) e h = absurd (omega arith)

  merge-cons :
      (rs : List Range)
      → merged ≡ rs
      → 0 < length rs
      → merge intervals ≡ merge_loop (length rs) rs (at rs 0) 1 []
  unfolding merge at
  merge-cons [] e h = absurd (omega arith)
  merge-cons (r ∷ rs) e h = rw (e, merge) refl

  module _ (P : Range → ℕ → List Range → Type 0) where
    -- A property that each round keeps holds at the end of the loop, which the fuel is enough for.
    pub merge_loop-ends :
        ((curr : Range) (idx : ℕ) (out : List Range)
          → idx < length merged
          → P curr idx out
          → let step = absorb curr (at merged idx) out in
            let b = sr.bisect merged step.0.end_ in (idx < b) × P (extend merged step.0 b) b step.1)
        → (fuel : ℕ) (curr : Range) (idx : ℕ) (out : List Range) → idx ≤ length merged
        → length merged < fuel + idx
        → P curr idx out
        → (last : Range) × (end_idx : ℕ) × (done_ : List Range) × (merge_loop fuel merged curr idx
              out
            ≡ some (done_ ++ last ∷ []))
          × (length merged ≤ end_idx)
          × P last end_idx done_
    unfolding merge_loop
    merge_loop-ends keeps zero curr idx out f h p = absurd (omega arith)
    merge_loop-ends keeps (suc fuel) curr idx out f h p =
        elim (Bool-cases (ltb idx (length merged))) [
          | inl more ↦
              let step = absorb curr (at merged idx) out in
              let b = sr.bisect merged step.0.end_ in
              let next = keeps curr idx out (ground arith) p in
              let later =
                merge_loop-ends keeps fuel (extend merged step.0 b) b step.1
                  (sr.bisect-le intervals step.0.end_) (omega (arith, next.0)) next.1 in
              (later.0, later.1, later.2, rw more later.3, later.4, later.5)
          | inr none_left ↦ (curr, idx, out, rw none_left refl, ground arith, p)
        ]

    pub merge-ends :
        ((curr : Range) (idx : ℕ) (out : List Range)
          → idx < length merged
          → P curr idx out
          → let step = absorb curr (at merged idx) out in
            let b = sr.bisect merged step.0.end_ in (idx < b) × P (extend merged step.0 b) b step.1)
        → (0 < length merged → P (at merged 0) 1 [])
        → ((merge intervals ≡ some []) × (merged ≡ []))
          ⊎ ((last : Range) × (end_idx : ℕ) × (done_ : List Range) × (merge intervals
                ≡ some (done_ ++ last ∷ []))
              × (length merged ≤ end_idx)
              × P last end_idx done_)
    merge-ends keeps first = elim (Bool-cases (ltb 0 (length merged))) [
      | inl some_left ↦
          let found =
            merge_loop-ends keeps (length merged) (at merged 0) 1 [] (ground arith) (omega arith)
              (first (ground arith)) in
          inr (
            found.0,
            found.1,
            found.2,
            merge-cons merged refl (ground arith) ∙ found.3,
            found.4,
            found.5,
          )
      | inr none_left ↦ inl (merge-nil merged refl (ground arith))
    ]
