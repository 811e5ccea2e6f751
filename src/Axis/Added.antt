-- ===== src/Axis/Added.antt =====
-- `_add_range` of core/plot/patch.py: what a range adds to the addresses that are shown.
use cheriplot.Axis.Ranges.{Range, Covered, In}
use cheriplot.Axis.Collapse.{add_range, add_to_set}
use cheriplot.Base.{
  ◌≡◌, List, ℕ, ◌↔◌, ◌≤◌, ◌⊎◌, ◌-◌, ◌*◌, ◌+◌, ◌∷◌, Bool-cases, ◌==◌, ltb, ◌&&◌, inl, arith, ◌<◌,
  inr, subst, sym, [], Has,
}

range_eq : (r q : Range) → r.start ≡ q.start → r.end_ ≡ q.end_ → r ≡ q
range_eq r q h k = λ i. record { start = h i; end_ = k i }

add_to_set-Has :
    (P : Range → Type 0) (r : Range) (qs : List Range) → Has P (add_to_set r qs) ↔ (P r ⊎ Has P qs)
add_to_set-Has P r [] = (λ h. h, λ h. h)
add_to_set-Has P r (q ∷ qs) =
    let later = add_to_set-Has P r qs in
    elim (Bool-cases (r.start == q.start && r.end_ == q.end_)) [
      | inl e ↦
          let same : q ≡ r = range_eq q r (ground arith) (ground arith) in
          rw e (λ h. inr h, λ h. elim h [ inl y ↦ inl (subst P (sym same) y) | inr y ↦ y ])
      | inr e ↦ rw e (
        λ h. elim h [
          | inl y ↦ inr (inl y)
          | inr y ↦ elim (later.0 y) [ inl z ↦ inl z | inr z ↦ inr (inr z) ]
        ],
        λ h. elim h [
          | inl y ↦ inr (later.1 (inl y))
          | inr y ↦ elim y [ inl z ↦ inl z | inr z ↦ inr (later.1 (inr z)) ]
        ],
      )
    ]

-- A range of at most two limits is shown whole, of a longer one the two ends.
abbrev pub IsEnd : (start end_ size_limit x : ℕ) → Type 0
IsEnd start end_ size_limit x =
    (start ≤ x)
    × (x ≤ end_)
    × ((end_ - start ≤ 2 * size_limit) ⊎ (x ≤ start + size_limit) ⊎ (end_ - size_limit ≤ x))

-- A range that does not end before it starts adds exactly its addresses, without those of the middle
-- if it is longer than two limits, and loses none that were there.
pub add_range-Covered :
    (start end_ size_limit : ℕ) (ranges : List Range) (x : ℕ)
    → start ≤ end_
    → Covered x (add_range start end_ size_limit ranges)
      ↔ (IsEnd start end_ size_limit x ⊎ Covered x ranges)
unfolding add_range
add_range-Covered start end_ size_limit ranges x h =
    let low : Range = record { start = start; end_ = start + size_limit } in
    let high : Range = record { start = end_ - size_limit; end_ = end_ } in
    let whole : Range = record { start = start; end_ = end_ } in
    let low_in = add_to_set-Has (In x) low ranges in
    let high_in = add_to_set-Has (In x) high (add_to_set low ranges) in
    let whole_in = add_to_set-Has (In x) whole ranges in
    elim (Bool-cases (ltb (2 * size_limit) (end_ - start))) [
      | inl long ↦
          let longer : 2 * size_limit < end_ - start = ground arith in
          rw long (
            λ c. elim (high_in.0 c) [
              | inl y ↦ inl (omega (arith, y.0, longer), y.1, inr (inr y.0))
              | inr y ↦ elim (low_in.0 y) [
                | inl z ↦ inl (z.0, omega (arith, z.1, longer), inr (inl z.1))
                | inr z ↦ inr z
              ]
            ],
            λ c. elim c [
              | inl y ↦ elim y.2 [
                | inl short ↦ absurd (omega arith)
                | inr z ↦ elim z [
                  | inl l ↦ high_in.1 (inr (low_in.1 (inl (y.0, l))))
                  | inr r ↦ high_in.1 (inl (r, y.1))
                ]
              ]
              | inr y ↦ high_in.1 (inr (low_in.1 (inr y)))
            ],
          )
      | inr short ↦
          let shorter : end_ - start ≤ 2 * size_limit = ground arith in
          rw short (
            λ c. elim (whole_in.0 c) [ inl y ↦ inl (y.0, y.1, inl shorter) | inr y ↦ inr y ],
            λ c. whole_in.1 (elim c [ inl y ↦ inl (y.0, y.1) | inr y ↦ inr y ]),
          )
    ]
