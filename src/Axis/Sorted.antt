-- ===== src/Axis/Sorted.antt =====
-- A list sorted by insertion meets the laws of `SortedRanges`.
use cheriplot.Axis.Ranges.{Range, at, SortedRanges, Before, at-Has}
use cheriplot.Base.{
  Bool, ◌≡◌, List, if◌then◌else◌, true, false, ◌∷◌, ℕ, ◌↔◌, ltb, Bool-cases, leb, inl, [], ◌==◌,
  arith, suc, subst, inr, ◌&&◌, ◌∙◌, ◌≤◌, ◌<◌, length, ◌-◌, zero, refl, Has,
}

unfoldable is_before : Range → Range → Bool
is_before p q = if ltb p.start q.start then true else p.start == q.start && leb p.end_ q.end_

is_before_yes : (p q : Range) → is_before p q ≡ true → Before p q
unfolding is_before
is_before_yes p q h = elim (Bool-cases (ltb p.start q.start)) [
  | inl e ↦ inl (ground arith)
  | inr e ↦ inr (ground arith, ground arith)
]

is_before_no : (p q : Range) → is_before p q ≡ false → Before q p
unfolding is_before
is_before_no p q h = elim (Bool-cases (ltb q.start p.start)) [
  | inl e ↦ inl (ground arith)
  | inr e ↦ inr (ground arith, ground arith)
]

Before-trans : (p q r : Range) → Before p q → Before q r → Before p r
Before-trans p q r (inl a) (inl b) = inl (omega arith)
Before-trans p q r (inl a) (inr b) = inl (omega (arith, b.0))
Before-trans p q r (inr a) (inl b) = inl (omega (arith, a.0))
Before-trans p q r (inr a) (inr b) = inr (a.0 ∙ b.0, omega (arith, a.1, b.1))

unfoldable put_in : Range → List Range → List Range
unfolding is_before
put_in p [] = p ∷ []
put_in p (q ∷ qs) = let rest = put_in p qs in if is_before p q then p ∷ q ∷ qs else q ∷ rest

unfoldable pub sort : List Range → List Range
unfolding put_in
sort [] = []
sort (r ∷ rs) = put_in r (sort rs)

unfoldable pub count_starts : List Range → ℕ → ℕ
count_starts [] x = 0
count_starts (r ∷ rs) x = let rest = count_starts rs x in if leb r.start x then suc rest else 0

put_in-Has :
    (P : Range → Type 0) (p : Range) (qs : List Range) → Has P (put_in p qs) ↔ Has P (p ∷ qs)
unfolding put_in
put_in-Has P p [] = (λ h. h, λ h. h)
put_in-Has P p (q ∷ qs) =
    let later = put_in-Has P p qs in
    elim (Bool-cases (is_before p q)) [
      | inl e ↦ rw e (λ h. h, λ h. h)
      | inr e ↦ rw e (
        λ h. elim h [
          | inl y ↦ inr (inl y)
          | inr y ↦ elim (later.0 y) [ inl z ↦ inl z | inr z ↦ inr (inr z) ]
        ],
        λ h. elim h [
          | inl y ↦ inr (later.1 (inl y))
          | inr y ↦ elim y [ inl z ↦ inl z | inr z ↦ inr (later.1 (inr z)) ]
        ],
      )
    ]

pub sort-Has : (P : Range → Type 0) (rs : List Range) → Has P (sort rs) ↔ Has P rs
unfolding sort
sort-Has P [] = (λ h. h, λ h. h)
sort-Has P (r ∷ rs) =
    let here = put_in-Has P r (sort rs) in
    let later = sort-Has P rs in
    (
      λ h. elim (here.0 h) [ inl y ↦ inl y | inr y ↦ inr (later.0 y) ],
      λ h. here.1 (elim h [ inl y ↦ inl y | inr y ↦ inr (later.1 y) ]),
    )

-- Each element is before all that follow.
abbrev pub IsLeast : Range → List Range → Type 0
IsLeast p qs = (q : Range) → Has (λ r. r ≡ q) qs → Before p q

abbrev pub IsSorted : List Range → Type 0
IsSorted [] = Unit
IsSorted (r ∷ rs) = IsLeast r rs × IsSorted rs

put_in-IsSorted : (p : Range) (qs : List Range) → IsSorted qs → IsSorted (put_in p qs)
unfolding put_in
put_in-IsSorted p [] h = (λ q c. absurd c, tt)
put_in-IsSorted p (q ∷ qs) h = elim (Bool-cases (is_before p q)) [
  | inl e ↦
      let first = is_before_yes p q e in
      rw e (
        λ r c. elim c [
          | inl y ↦ subst (Before p) y first
          | inr y ↦ Before-trans p q r first (h.0 r y)
        ],
        h,
      )
  | inr e ↦
      let second = is_before_no p q e in
      rw e (
        λ r c. elim ((put_in-Has (λ x. x ≡ r) p qs).0 c) [
          | inl y ↦ subst (Before q) y second
          | inr y ↦ h.0 r y
        ],
        put_in-IsSorted p qs h.1,
      )
]

pub sort-IsSorted : (rs : List Range) → IsSorted (sort rs)
unfolding sort
sort-IsSorted [] = tt
sort-IsSorted (r ∷ rs) = put_in-IsSorted r (sort rs) (sort-IsSorted rs)

pub sorted-at :
    (rs : List Range) (i j : ℕ) → IsSorted rs → i ≤ j → j < length rs → Before (at rs i) (at rs j)
unfolding at
sorted-at [] i j s h k = absurd (omega arith)
sorted-at (r ∷ rs) zero zero s h k = inr (refl, omega arith)
sorted-at (r ∷ rs) zero (suc j) s h k =
    s.0 (at rs j) (at-Has (λ q. q ≡ at rs j) rs j (omega arith) refl)
sorted-at (r ∷ rs) (suc i) zero s h k = absurd (omega arith)
sorted-at (r ∷ rs) (suc i) (suc j) s h k = sorted-at rs i j s.1 (omega arith) (omega arith)

pub count_starts-le : (rs : List Range) (x : ℕ) → count_starts rs x ≤ length rs
unfolding count_starts
count_starts-le [] x = omega arith
count_starts-le (r ∷ rs) x = ground (arith, count_starts-le rs x)

pub count_starts-below : (rs : List Range) (x i : ℕ) → i < count_starts rs x → (at rs i).start ≤ x
unfolding count_starts at
count_starts-below [] x i h = absurd (omega arith)
count_starts-below (r ∷ rs) x zero h = ground arith
count_starts-below (r ∷ rs) x (suc i) h = count_starts-below rs x i (ground arith)

above_next :
    (r : Range) (rs : List Range) (x i : ℕ)
    → x < (at rs (i - 1)).start
    → 0 < i
    → x < (at (r ∷ rs) i).start
unfolding at
above_next r rs x zero h k = absurd (omega arith)
above_next r rs x (suc i) h k =
    let same : suc i - 1 ≡ i = omega arith in subst (λ n. x < (at rs n).start) same h

pub count_starts-above :
    (rs : List Range) (x i : ℕ)
    → IsSorted rs
    → count_starts rs x ≤ i
    → i < length rs
    → x < (at rs i).start
unfolding count_starts at
count_starts-above [] x i s h k = absurd (omega arith)
count_starts-above (r ∷ rs) x i s h k = elim (Bool-cases (leb r.start x)) [
  | inl e ↦
      let more : suc (count_starts rs x) ≤ i = ground arith in
      above_next r rs x i (count_starts-above rs x (i - 1) s.1 (omega arith) (omega arith))
        (omega arith)
  | inr e ↦ elim (sorted-at (r ∷ rs) 0 i s (omega arith) k) [
    | inl l ↦ ground arith
    | inr y ↦ let same = y.0 in ground arith
  ]
]

instance abbrev pub sorted_ranges : SortedRanges
sorted_ranges = record {
  sorted_list = sort;
  bisect = count_starts;
  same_elements = sort-Has;
  in_order = λ rs i j h k. sorted-at (sort rs) i j (sort-IsSorted rs) h k;
  bisect-le = λ rs x. count_starts-le (sort rs) x;
  bisect-below = λ rs x i h. count_starts-below (sort rs) x i h;
  bisect-above = λ rs x i h k. count_starts-above (sort rs) x i (sort-IsSorted rs) h k;
}
