-- ===== src/Axis/Whole.antt =====
-- `_gen_intervals` of core/plot/addrspace_axes.py: the intervals cover the axis, and those to keep are
-- the ranges that were asked for.
use cheriplot.Base.{
  none, some, true, false, ℕ, List, ◌≡◌, ◌≤◌, ◌↔◌, ◌<◌, ◌∷◌, arith, suc, length, inl, Bool-cases,
  subst, inr, [], ltb, refl, Has,
}
use cheriplot.Axis.Ranges.{Range, SortedRanges, Covered}
use cheriplot.Axis.Collapse.{merge, gen_loop, gen_intervals, Interval}
use cheriplot.Axis.Cover.{AreProper, AreFlat, Apart, merge-Apart}
use cheriplot.Axis.Shown.{merge-Covered}

-- Each interval starts where the one before ends, and the last is to be omitted and has no end.
abbrev pub Tiles : ℕ → List Interval → Type 0
Tiles from [] = ⊥
Tiles from (i ∷ is) =
    (i.start ≡ from)
    × elim i.end_ [ none ↦ (is ≡ []) × (i.keep ≡ false) | some e ↦ (from ≤ e) × Tiles e is ]

-- The address lies in an interval to keep.
abbrev pub IsShownBy : ℕ → Interval → Type 0
IsShownBy x i = (i.keep ≡ true) × (i.start ≤ x) × elim i.end_ [ none ↦ Unit {0} | some e ↦ x ≤ e ]

abbrev pub Shown : ℕ → List Interval → Type 0
Shown x is = Has (IsShownBy x) is

Apart-weaken : (a b : ℕ) (rs : List Range) → a ≤ b → Apart b rs → Apart a rs
Apart-weaken a b [] h p = tt
Apart-weaken a b (r ∷ rs) h p = (omega (arith, p.0), p.1, p.2)

gen_loop-Tiles : (from : ℕ) (rs : List Range) → Apart from rs → Tiles from (gen_loop from rs)
unfolding gen_loop
gen_loop-Tiles from [] h = (refl, (refl, refl))
gen_loop-Tiles from (r ∷ rs) h =
    let later = gen_loop-Tiles r.end_ rs (Apart-weaken r.end_ (suc r.end_) rs (omega arith) h.2) in
    elim (Bool-cases (ltb from r.start)) [
      | inl gap ↦ rw gap (refl, (h.0, (refl, (h.1, later))))
      | inr none_left ↦ rw none_left (ground arith, (omega (arith, h.0, h.1), later))
    ]

false-ne_true : false ≡ true → ⊥
false-ne_true e = cc e

gen_loop-Shown : (x from : ℕ) (rs : List Range) → Shown x (gen_loop from rs) ↔ Covered x rs
unfolding gen_loop
gen_loop-Shown x from [] =
    (λ s. elim s [ inl y ↦ absurd (false-ne_true y.0) | inr y ↦ y ], λ c. absurd c)
gen_loop-Shown x from (r ∷ rs) =
    let later = gen_loop-Shown x r.end_ rs in
    let kept : Shown x
          (record { start = r.start; end_ = some r.end_; keep = true } ∷ gen_loop r.end_ rs)
        ↔ Covered x (r ∷ rs) =
      (
        λ s. elim s [ inl y ↦ inl (y.1, y.2) | inr y ↦ inr (later.0 y) ],
        λ c. elim c [ inl y ↦ inl (refl, y.0, y.1) | inr y ↦ inr (later.1 y) ],
      ) in
    elim (Bool-cases (ltb from r.start)) [
      | inl gap ↦ rw gap (
        λ s. elim s [ inl y ↦ absurd (false-ne_true y.0) | inr y ↦ kept.0 y ],
        λ c. inr (kept.1 c),
      )
      | inr none_left ↦ rw none_left kept
    ]

made :
    ⦃sr : SortedRanges⦄ (intervals out : List Range)
    → merge intervals ≡ some out
    → (x : ℕ) → Covered x out
    → gen_intervals intervals ≡ some (gen_loop 0 out)
unfolding gen_intervals
made intervals [] e x c = absurd c
made intervals (r ∷ rs) e x c = rw (e, gen_intervals) refl

-- For some intervals, of which none ends before it starts, or behind one that starts later, the
-- intervals of the axis follow each other from 0 on, the last one has no end, and an address lies in
-- one to keep exactly if one of the given intervals has it.
pub gen_intervals-Tiles :
    ⦃sr : SortedRanges⦄ (intervals : List Range)
    → AreProper intervals
    → AreFlat intervals
    → 0 < length intervals
    → (is : List Interval) × (gen_intervals intervals ≡ some is)
      × Tiles 0 is
      × ((x : ℕ) → Shown x is ↔ Covered x intervals)
unfolding gen_intervals
gen_intervals-Tiles [] proper flat h = absurd (omega arith)
gen_intervals-Tiles (r ∷ rs) proper flat h =
    let apart = merge-Apart (r ∷ rs) proper in
    let all = merge-Covered (r ∷ rs) proper flat in
    let same : all.0 ≡ apart.0 = cc (all.1, apart.1) in
    let covers : (x : ℕ) → Covered x (r ∷ rs) → Covered x apart.0 =
      λ x c. subst (Covered x) same (all.2 x c) in
    (
      gen_loop 0 apart.0,
      made (r ∷ rs) apart.0 apart.1 r.start
          (covers r.start (inl (omega arith, proper r (inl refl)))),
      gen_loop-Tiles 0 apart.0 apart.2,
      λ x. (
        λ s. apart.3 x ((gen_loop-Shown x 0 apart.0).0 s),
        λ c. (gen_loop-Shown x 0 apart.0).1 (covers x c),
      ),
    )
