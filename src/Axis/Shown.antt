-- ===== src/Axis/Shown.antt =====
-- `_merge` and `_gen_intervals` of core/plot/addrspace_axes.py where no interval is nested in another:
-- nothing that should be shown is lost.
use cheriplot.Axis.Ranges.{Range, at, SortedRanges, Covered, In, at-Has, Has-at}
use cheriplot.Axis.Collapse.{absorb, extend, merge}
use cheriplot.Axis.Loop.{merged, bisect-later, extend_end, merge-ends}
use cheriplot.Axis.Cover.{
  AreProper, AreFlat, Covered-last, Covered-front, Covered-back, at-proper, starts_in_order,
  extend_start,
}
use cheriplot.Base.{
  List, ℕ, ◌<◌, ◌≡◌, ◌≤◌, length, some, ◌++◌, arith, [], inl, ◌∷◌, Bool-cases, ◌-◌, subst, refl,
  inr, ltb, Has,
}

module _ ⦃sr : SortedRanges⦄ (intervals : List Range) (proper : AreProper intervals)
    (flat : AreFlat intervals) where
  element :
      (n : ℕ) → n < length (merged intervals) → Has (λ p. p ≡ at (merged intervals) n) intervals
  element n l =
      let P = λ (p : Range). p ≡ at (merged intervals) n in
      (sr.same_elements P intervals).0 (at-Has P (merged intervals) n l refl)

  ends_in_order :
      (i j : ℕ)
      → i ≤ j
      → j < length (merged intervals)
      → (at (merged intervals) i).end_ ≤ (at (merged intervals) j).end_
  ends_in_order i j h k = elim (sr.in_order intervals i j h k) [
    | inl l ↦
        flat (at (merged intervals) i) (at (merged intervals) j) (element i (omega arith))
          (element j k) l
    | inr r ↦ r.1
  ]

  -- The intervals behind `idx` are covered, and the current range starts and ends before the others.
  IsKept : Range → ℕ → List Range → Type 0
  IsKept curr idx out =
      ((i : ℕ)
        → i < idx
        → i < length (merged intervals)
        → (x : ℕ) → In x (at (merged intervals) i)
        → Covered x (out ++ curr ∷ []))
      × ((j : ℕ)
          → idx ≤ j
          → j < length (merged intervals)
          → (curr.start ≤ (at (merged intervals) j).start)
            × (curr.end_ ≤ (at (merged intervals) j).end_))

  absorb-IsKept :
      (curr : Range) (idx : ℕ) (out : List Range)
      → idx < length (merged intervals)
      → IsKept curr idx out
      → let step = absorb curr (at (merged intervals) idx) out in
        IsKept step.0 idx step.1
        × (step.0.start ≤ (at (merged intervals) idx).start)
        × (step.0.end_ ≡ (at (merged intervals) idx).end_)
  unfolding absorb IsKept
  absorb-IsKept curr idx out h s =
      let next = at (merged intervals) idx in
      let ahead = s.1 idx (omega arith) h in
      elim (Bool-cases (ltb curr.end_ next.start)) [
        | inl apart ↦ rw apart (
          (
            λ i k l x c. Covered-front x (out ++ curr ∷ []) next (s.0 i k l x c),
            λ j k l. (starts_in_order intervals proper idx j k l, ends_in_order idx j k l),
          ),
          omega arith,
          refl,
        )
        | inr joined ↦ rw joined (
          (
            λ i k l x c. elim (Covered-last x out curr (s.0 i k l x c)) [
              | inl y ↦ Covered-front x out (record { start = curr.start; end_ = next.end_ }) y
              | inr y ↦
                  Covered-back x out (record { start = curr.start; end_ = next.end_ })
                    (y.0, omega (arith, y.1, ahead.1))
            ],
            λ j k l. ((s.1 j k l).0, ends_in_order idx j k l),
          ),
          ahead.0,
          refl,
        )
      ]

  extend-IsKept :
      (curr : Range) (idx b : ℕ) (out : List Range)
      → sr.bisect (merged intervals) curr.end_ ≡ b
      → idx < b
      → curr.start ≤ (at (merged intervals) idx).start
      → IsKept curr idx out
      → IsKept (extend (merged intervals) curr b) b out
  unfolding IsKept
  extend-IsKept curr idx b out e h starts_before s =
      let ends = extend_end intervals curr b (omega arith) e in
      let wider = extend (merged intervals) curr b in
      let within = sr.bisect-le intervals curr.end_ in
      let starts : wider.start ≡ curr.start = extend_start (merged intervals) curr b in
      let larger = (s.1 (b - 1) (omega arith) (omega arith)).1 in
      (
        λ i k l x c. elim (Bool-cases (ltb i idx)) [
          | inl old ↦ elim (Covered-last x out curr (s.0 i (ground arith) l x c)) [
            | inl y ↦ Covered-front x out wider y
            | inr y ↦
                Covered-back x out wider (omega (arith, y.0, starts), omega (arith, y.1, ends))
          ]
          | inr new ↦
              let from : idx ≤ i = ground arith in
              Covered-back x out wider (
                omega (arith, c.0, starts, starts_in_order intervals proper idx i from l),
                omega (arith, c.1, ends, ends_in_order i (b - 1) (omega arith) (omega arith)),
              )
        ],
        λ j k l. (
          omega (arith, starts, (s.1 j (omega arith) l).0),
          omega (arith, ends, larger, ends_in_order (b - 1) j (omega arith) l),
        ),
      )

  round-IsKept :
      (curr : Range) (idx : ℕ) (out : List Range)
      → idx < length (merged intervals)
      → IsKept curr idx out
      → let step = absorb curr (at (merged intervals) idx) out in
        let b = sr.bisect (merged intervals) step.0.end_ in
        (idx < b) × IsKept (extend (merged intervals) step.0 b) b step.1
  round-IsKept curr idx out h s =
      let step = absorb curr (at (merged intervals) idx) out in
      let b = sr.bisect (merged intervals) step.0.end_ in
      let half = absorb-IsKept curr idx out h s in
      let later =
        bisect-later intervals step.0 idx h
          (omega (arith, at-proper intervals proper idx h, half.2)) in
      (later, extend-IsKept step.0 idx b step.1 refl later half.1 half.0)

  first-IsKept : 0 < length (merged intervals) → IsKept (at (merged intervals) 0) 1 []
  unfolding IsKept
  first-IsKept h = (
    λ i k l x c. inl (subst (λ n. In x (at (merged intervals) n)) (omega arith) c),
    λ j k l.
        (starts_in_order intervals proper 0 j (omega arith) l, ends_in_order 0 j (omega arith) l),
  )

  -- If no interval ends before it starts, or behind one that starts later, then the merge returns
  -- ranges that cover every address that the intervals cover.
  pub merge-Covered :
      (out : List Range) × (merge intervals ≡ some out)
      × ((x : ℕ) → Covered x intervals → Covered x out)
  unfolding IsKept
  merge-Covered = elim (merge-ends intervals IsKept round-IsKept first-IsKept) [
    | inl nothing ↦ (
      [],
      nothing.0,
      λ x c. subst (Covered x) nothing.1 ((sr.same_elements (In x) intervals).1 c),
    )
    | inr found ↦ (
      found.2 ++ found.0 ∷ [],
      found.3,
      λ x c.
          let place = Has-at (In x) (merged intervals) ((sr.same_elements (In x) intervals).1 c) in
          found.5.0 place.0 (omega (arith, place.1, found.4)) place.1 x place.2,
    )
  ]
