-- ===== src/Tests/Axes.antt =====
-- The ranges of an axis, and the theorems at concrete inputs.
use cheriplot.Axis.Ranges.{Range, at, Covered}
use cheriplot.Axis.Sorted.{sorted_ranges, sort, count_starts}
use cheriplot.Axis.Collapse.{merge, gen_intervals, Interval, add_range}
use cheriplot.Axis.Cover.{AreProper, AreFlat, merge-Apart, Apart}
use cheriplot.Axis.Whole.{gen_intervals-Tiles, Tiles, Shown}
use cheriplot.Axis.Added.{add_range-Covered, IsEnd}
use cheriplot.Base.{
  ℕ, List, ◌≡◌, ◌∷◌, inl, [], some, subst, ◌≤◌, refl, arith, inr, ◌<◌, ◌↔◌, ◌⊎◌, Has,
}

abbrev range : ℕ → ℕ → Range
range a b = record { start = a; end_ = b }

abbrev overlapping : List Range
overlapping = range 30 40 ∷ range 5 12 ∷ range 10 20 ∷ []

merge_test : merge overlapping ≡ some (range 5 20 ∷ range 30 40 ∷ [])
unfolding merge sort count_starts at
merge_test = refl

-- A nested interval cuts the one around it short.
nested_test : merge (range 0 100 ∷ range 10 20 ∷ []) ≡ some (range 0 20 ∷ [])
unfolding merge sort count_starts at
nested_test = refl

each :
    (P : Range → Type 0)
    → P (range 30 40)
    → P (range 5 12)
    → P (range 10 20)
    → (r : Range) → Has (λ q. q ≡ r) overlapping
    → P r
each P a b c r (inl e) = subst P e a
each P a b c r (inr (inl e)) = subst P e b
each P a b c r (inr (inr (inl e))) = subst P e c
each P a b c r (inr (inr (inr e))) = absurd e

overlapping-AreProper : AreProper overlapping
overlapping-AreProper = each (λ r. r.start ≤ r.end_) (omega arith) (omega arith) (omega arith)

Flat : Range → Range → Type 0
Flat r q = r.start < q.start → r.end_ ≤ q.end_

overlapping-AreFlat : AreFlat overlapping
unfolding Flat
overlapping-AreFlat r q h k =
    each (λ p. Flat p q)
      (each (Flat (range 30 40)) (λ l. omega arith) (λ l. omega arith) (λ l. omega arith) q k)
      (each (Flat (range 5 12)) (λ l. omega arith) (λ l. omega arith) (λ l. omega arith) q k)
      (each (Flat (range 10 20)) (λ l. omega arith) (λ l. omega arith) (λ l. omega arith) q k) r h

merge-Apart_example :
    (out : List Range) × (merge overlapping ≡ some out)
    × Apart 0 out
    × ((x : ℕ) → Covered x out → Covered x overlapping)
merge-Apart_example = merge-Apart overlapping overlapping-AreProper

gen_intervals-Tiles_example :
    (is : List Interval) × (gen_intervals overlapping ≡ some is)
    × Tiles 0 is
    × ((x : ℕ) → Shown x is ↔ Covered x overlapping)
gen_intervals-Tiles_example =
    gen_intervals-Tiles overlapping overlapping-AreProper overlapping-AreFlat (omega arith)

add_range-Covered_example :
    Covered 55 (add_range 50 90 10 overlapping) ↔ (IsEnd 50 90 10 55 ⊎ Covered 55 overlapping)
add_range-Covered_example = add_range-Covered 50 90 10 overlapping 55 (omega arith)
