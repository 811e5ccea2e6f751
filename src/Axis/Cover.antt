-- ===== src/Axis/Cover.antt =====
-- `_merge` of core/plot/addrspace_axes.py: what it returns stands apart and covers nothing new.
use cheriplot.Axis.Ranges.{Range, at, SortedRanges, Covered, In, at-Has}
use cheriplot.Axis.Collapse.{absorb, extend, merge}
use cheriplot.Axis.Loop.{merged, bisect-later, extend_end, merge-ends}
use cheriplot.Base.{
  List, ℕ, ◌≡◌, ◌<◌, ◌++◌, ◌∷◌, ◌≤◌, [], length, suc, arith, ◌⊎◌, inl, inr, Bool-cases, refl, ltb,
  leb, ◌-◌, some, Has, Has-append,
}

-- No range ends before it starts.
abbrev pub AreProper : List Range → Type 0
AreProper rs = (r : Range) → Has (λ q. q ≡ r) rs → r.start ≤ r.end_

-- Each range is proper and starts behind the end of the one before.
abbrev pub Apart : ℕ → List Range → Type 0
Apart from [] = Unit
Apart from (r ∷ rs) = (from ≤ r.start) × (r.start ≤ r.end_) × Apart (suc r.end_) rs

Apart-last :
    (from : ℕ) (rs : List Range) (c d : Range)
    → d.start ≡ c.start
    → d.start ≤ d.end_
    → Apart from (rs ++ c ∷ [])
    → Apart from (rs ++ d ∷ [])
Apart-last from [] c d e h a = (omega (arith, a.0), h, tt)
Apart-last from (r ∷ rs) c d e h a = (a.0, a.1, Apart-last (suc r.end_) rs c d e h a.2)

Apart-next :
    (from : ℕ) (rs : List Range) (c d : Range)
    → c.end_ < d.start
    → d.start ≤ d.end_
    → Apart from (rs ++ c ∷ [])
    → Apart from ((rs ++ c ∷ []) ++ d ∷ [])
Apart-next from [] c d e h a = (a.0, a.1, (omega arith, h, tt))
Apart-next from (r ∷ rs) c d e h a = (a.0, a.1, Apart-next (suc r.end_) rs c d e h a.2)

Apart-proper :
    (from : ℕ) (rs : List Range) (c : Range) → Apart from (rs ++ c ∷ []) → c.start ≤ c.end_
Apart-proper from [] c a = a.1
Apart-proper from (r ∷ rs) c a = Apart-proper (suc r.end_) rs c a.2

-- What a list with one more range at its end covers.
pub Covered-last :
    (x : ℕ) (rs : List Range) (c : Range) → Covered x (rs ++ c ∷ []) → Covered x rs ⊎ In x c
Covered-last x rs c h = elim ((Has-append (In x) rs (c ∷ [])).0 h) [
  | inl l ↦ inl l
  | inr r ↦ elim r [ inl y ↦ inr y | inr y ↦ absurd y ]
]

pub Covered-front : (x : ℕ) (rs : List Range) (c : Range) → Covered x rs → Covered x (rs ++ c ∷ [])
Covered-front x rs c h = (Has-append (In x) rs (c ∷ [])).1 (inl h)

pub Covered-back : (x : ℕ) (rs : List Range) (c : Range) → In x c → Covered x (rs ++ c ∷ [])
Covered-back x rs c h = (Has-append (In x) rs (c ∷ [])).1 (inr (inl h))

pub extend_start : (rs : List Range) (c : Range) (b : ℕ) → (extend rs c b).start ≡ c.start
unfolding extend
extend_start rs c b = refl

module _ ⦃sr : SortedRanges⦄ (intervals : List Range) (proper : AreProper intervals) where
  pub at-proper :
      (i : ℕ)
      → i < length (merged intervals)
      → (at (merged intervals) i).start ≤ (at (merged intervals) i).end_
  at-proper i h =
      let r = at (merged intervals) i in
      proper r (
        (sr.same_elements (λ q. q ≡ r) intervals).0
          (at-Has (λ q. q ≡ r) (merged intervals) i h refl))

  -- What is returned so far with the current range.
  abbrev IsSound : Range → ℕ → List Range → Type 0
  IsSound curr idx out =
      Apart 0 (out ++ curr ∷ [])
      × ((x : ℕ) → Covered x (out ++ curr ∷ []) → Covered x (merged intervals))
      × ((j : ℕ)
          → idx ≤ j
          → j < length (merged intervals)
          → curr.start ≤ (at (merged intervals) j).start)

  pub starts_in_order :
      (i j : ℕ)
      → i ≤ j
      → j < length (merged intervals)
      → (at (merged intervals) i).start ≤ (at (merged intervals) j).start
  starts_in_order i j h k = elim (sr.in_order intervals i j h k) [
    | inl l ↦ omega (arith, l)
    | inr r ↦ omega (arith, r.0)
  ]

  absorb-IsSound :
      (curr : Range) (idx : ℕ) (out : List Range)
      → idx < length (merged intervals)
      → IsSound curr idx out
      → let step = absorb curr (at (merged intervals) idx) out in
        IsSound step.0 idx step.1 × (step.0.end_ ≡ (at (merged intervals) idx).end_)
  unfolding absorb
  absorb-IsSound curr idx out h s =
      let next = at (merged intervals) idx in
      let from_list : (x : ℕ) → In x next → Covered x (merged intervals) =
        λ x. at-Has (In x) (merged intervals) idx h in
      let next_proper = at-proper idx h in
      let curr_proper = Apart-proper 0 out curr s.0 in
      elim (Bool-cases (ltb curr.end_ next.start)) [
        | inl apart ↦ rw apart (
          (
            Apart-next 0 out curr next (ground arith) next_proper s.0,
            λ x c. elim (Covered-last x (out ++ curr ∷ []) next c) [
              | inl l ↦ s.1 x l
              | inr r ↦ from_list x r
            ],
            λ j k. starts_in_order idx j k,
          ),
          refl,
        )
        | inr joined ↦ rw joined (
          (
            Apart-last 0 out curr (record { start = curr.start; end_ = next.end_ }) refl
                (omega (arith, s.2 idx (omega arith) h, next_proper)) s.0,
            λ x c. elim (Covered-last x out (record { start = curr.start; end_ = next.end_ }) c) [
              | inl l ↦ s.1 x (Covered-front x out curr l)
              | inr r ↦ elim (Bool-cases (leb x curr.end_)) [
                | inl old ↦ s.1 x (Covered-back x out curr (r.0, ground arith))
                | inr new ↦ from_list x (ground arith, r.1)
              ]
            ],
            λ j k l. s.2 j k l,
          ),
          refl,
        )
      ]

  extend-IsSound :
      (curr : Range) (idx b : ℕ) (out : List Range)
      → sr.bisect (merged intervals) curr.end_ ≡ b
      → idx < b
      → IsSound curr idx out
      → IsSound (extend (merged intervals) curr b) b out
  extend-IsSound curr idx b out e h s =
      let ends = extend_end intervals curr b (omega arith) e in
      let last = at (merged intervals) (b - 1) in
      let wider = extend (merged intervals) curr b in
      let below = sr.bisect-below intervals curr.end_ (b - 1) (omega arith) in
      let within = sr.bisect-le intervals curr.end_ in
      let proper_curr = Apart-proper 0 out curr s.0 in
      let starts : wider.start ≡ curr.start = extend_start (merged intervals) curr b in
      (
        Apart-last 0 out curr wider starts (omega arith) s.0,
        λ x c. elim (Covered-last x out wider c) [
          | inl l ↦ s.1 x (Covered-front x out curr l)
          | inr r ↦ elim (Bool-cases (leb x curr.end_)) [
            | inl old ↦ s.1 x (Covered-back x out curr (omega (arith, r.0, starts), ground arith))
            | inr new ↦ at-Has (In x) (merged intervals) (b - 1) (omega arith) (
                let larger : curr.end_ < x = ground arith in
                (omega arith, omega (arith, r.1, larger)))
          ]
        ],
        λ j k l. omega (arith, s.2 j (omega arith) l),
      )

  round-IsSound :
      (curr : Range) (idx : ℕ) (out : List Range)
      → idx < length (merged intervals)
      → IsSound curr idx out
      → let step = absorb curr (at (merged intervals) idx) out in
        let b = sr.bisect (merged intervals) step.0.end_ in
        (idx < b) × IsSound (extend (merged intervals) step.0 b) b step.1
  round-IsSound curr idx out h s =
      let step = absorb curr (at (merged intervals) idx) out in
      let b = sr.bisect (merged intervals) step.0.end_ in
      let half = absorb-IsSound curr idx out h s in
      let later = bisect-later intervals step.0 idx h (omega (arith, at-proper idx h, half.1)) in
      (later, extend-IsSound step.0 idx b step.1 refl later half.0)

  first-IsSound : 0 < length (merged intervals) → IsSound (at (merged intervals) 0) 1 []
  first-IsSound h = (
    (omega arith, at-proper 0 h, tt),
    λ x c. elim c [ inl y ↦ at-Has (In x) (merged intervals) 0 h y | inr y ↦ absurd y ],
    λ j k l. starts_in_order 0 j (omega arith) l,
  )

  -- If no interval ends before it starts, the merge returns ranges of which each starts behind the end
  -- of the one before, and which cover only addresses that the intervals cover.
  pub merge-Apart :
      (out : List Range) × (merge intervals ≡ some out)
      × Apart 0 out
      × ((x : ℕ) → Covered x out → Covered x intervals)
  merge-Apart = elim (merge-ends intervals IsSound round-IsSound first-IsSound) [
    | inl nothing ↦ ([], nothing.0, tt, λ x c. absurd c)
    | inr found ↦ (
      found.2 ++ found.0 ∷ [],
      found.3,
      found.5.0,
      λ x c. (sr.same_elements (In x) intervals).0 (found.5.1 x c),
    )
  ]

-- No interval ends behind one that starts later.
abbrev pub AreFlat : List Range → Type 0
AreFlat rs =
    (r q : Range) → Has (λ p. p ≡ r) rs → Has (λ p. p ≡ q) rs → r.start < q.start → r.end_ ≤ q.end_
