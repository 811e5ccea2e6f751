-- ===== src/Axis/Ranges.antt =====
-- The ranges of addresses, and the sorted list of sortedcontainers that `_merge` of
-- core/plot/addrspace_axes.py uses, with its documented laws.
use cheriplot.Base.{
  ℕ, zero, suc, List, [], ◌∷◌, ◌≡◌, ◌≤◌, ◌<◌, ◌⊎◌, inl, inr, length, ◌↔◌, arith, Has,
}

pub record Range : Type 0 where
  pub start : ℕ
  pub end_ : ℕ

abbrev pub In : ℕ → Range → Type 0
In x r = (r.start ≤ x) × (x ≤ r.end_)

abbrev pub Covered : ℕ → List Range → Type 0
Covered x rs = Has (In x) rs

-- `rs[i]` within bounds.
unfoldable pub at : List Range → ℕ → Range
at [] i = record { start = 0; end_ = 0 }
at (r ∷ rs) zero = r
at (r ∷ rs) (suc i) = at rs i

pub at-Has : (P : Range → Type 0) (rs : List Range) (i : ℕ) → i < length rs → P (at rs i) → Has P rs
unfolding at
at-Has P [] i h p = absurd (omega arith)
at-Has P (r ∷ rs) zero h p = inl p
at-Has P (r ∷ rs) (suc i) h p = inr (at-Has P rs i (omega arith) p)

pub Has-at :
    (P : Range → Type 0) (rs : List Range) → Has P rs → (i : ℕ) × (i < length rs) × P (at rs i)
unfolding at
Has-at P [] h = absurd h
Has-at P (r ∷ rs) (inl p) = (0, omega arith, p)
Has-at P (r ∷ rs) (inr h) =
    let found = Has-at P rs h in (suc found.0, omega (arith, found.1), found.2)

-- Pairs are ordered by their starts, and then by their ends.
abbrev pub Before : Range → Range → Type 0
Before p q = (p.start < q.start) ⊎ ((p.start ≡ q.start) × (p.end_ ≤ q.end_))

-- `SortedListWithKey(intervals, key=lambda k: (k[0], k[1]))` and `merged.bisect((x, np.inf))`: the
-- list has the elements it is made of, in order, and `bisect` is the index behind those whose start
-- is at most `x`.
pub record SortedRanges : Type 1 where
  pub sorted_list : List Range → List Range
  pub bisect : List Range → ℕ → ℕ
  pub same_elements : (P : Range → Type 0) (rs : List Range) → Has P (sorted_list rs) ↔ Has P rs
  pub in_order :
      (rs : List Range) (i j : ℕ)
      → i ≤ j
      → j < length (sorted_list rs)
      → Before (at (sorted_list rs) i) (at (sorted_list rs) j)
  pub bisect-le : (rs : List Range) (x : ℕ) → bisect (sorted_list rs) x ≤ length (sorted_list rs)
  pub bisect-below :
      (rs : List Range) (x i : ℕ)
      → i < bisect (sorted_list rs) x
      → (at (sorted_list rs) i).start ≤ x
  pub bisect-above :
      (rs : List Range) (x i : ℕ)
      → bisect (sorted_list rs) x ≤ i
      → i < length (sorted_list rs)
      → x < (at (sorted_list rs) i).start
