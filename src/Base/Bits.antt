-- ===== src/Base/Bits.antt =====
-- Laws of `bit_and` and `bit_or` at variables: a number whose bits another one has.
use Prim.Native.Nat.{
  ℕ, zero, suc, ◌+◌, ◌*◌, ◌/◌, ◌%◌, ◌≤◌, min, max, bit_and, bit_or, digits, bit_and-bitwise,
  bit_or-bitwise,
}
use mathlib.Core.Path.{◌≡◌, refl, sym, subst}
use native.Mathlib.Omega.{arith}
use cheriplot.Base.{ap, ◌∙◌, Bool-cases, ◌==◌, inl, inr}

-- The recursion over the digits of a number, for any operation on digits: rounds beyond those that the
-- number needs change nothing.
module _ (behind : ℕ → ℕ) (join : ℕ → ℕ → ℕ) where
  digits-rounds :
      (left right rounds more : ℕ)
      → left ≤ rounds
      → left ≤ more
      → digits behind join rounds left right ≡ digits behind join more left right
  digits-rounds zero right zero zero h k = refl
  digits-rounds zero right zero (suc more) h k = refl
  digits-rounds zero right (suc rounds) zero h k = refl
  digits-rounds zero right (suc rounds) (suc more) h k = refl
  digits-rounds (suc left) right zero more h k = absurd (omega arith)
  digits-rounds (suc left) right (suc rounds) zero h k = absurd (omega arith)
  digits-rounds (suc left) right (suc rounds) (suc more) h k =
      ap (λ x. x * 2 + join (suc left % 2) (right % 2))
        (digits-rounds (suc left / 2) (right / 2) rounds more (omega arith) (omega arith))

  -- Enough rounds are one for the lowest digit, and enough for the rest.
  digits-halves :
      ((b : ℕ) → behind b ≡ behind (b / 2) * 2 + join 0 (b % 2))
      → (left right : ℕ)
      → digits behind join left left right
        ≡ digits behind join (left / 2) (left / 2) (right / 2) * 2 + join (left % 2) (right % 2)
  digits-halves h zero right = h right
  digits-halves h (suc left) right =
      ap (λ x. x * 2 + join (suc left % 2) (right % 2))
        (digits-rounds (suc left / 2) (right / 2) left (suc left / 2) (omega arith) (omega arith))

zero-bit_and : (b : ℕ) → bit_and 0 b ≡ 0
zero-bit_and = bit_and-bitwise 0

bit_and_step : (a b : ℕ) → bit_and a b ≡ bit_and (a / 2) (b / 2) * 2 + min (a % 2) (b % 2)
bit_and_step a b =
    bit_and-bitwise a b
    ∙ digits-halves (λ b. zero) min (λ b. omega arith) a b
    ∙ ap (λ x. x * 2 + min (a % 2) (b % 2)) (sym (bit_and-bitwise (a / 2) (b / 2)))

bit_or_step : (a b : ℕ) → bit_or a b ≡ bit_or (a / 2) (b / 2) * 2 + max (a % 2) (b % 2)
bit_or_step a b =
    bit_or-bitwise a b
    ∙ digits-halves (λ b. b) max (λ b. omega arith) a b
    ∙ ap (λ x. x * 2 + max (a % 2) (b % 2)) (sym (bit_or-bitwise (a / 2) (b / 2)))

only_zero : (a : ℕ) → a ≤ 0 → a ≡ 0
only_zero a h = omega arith

-- Bits of a number that another one selects.
bit_and-le_fuel : (n a b : ℕ) → a ≤ n → bit_and a b ≤ a
bit_and-le_fuel zero a b h =
    subst (λ x. bit_and x b ≤ x) (sym (only_zero a h)) (omega (arith, zero-bit_and b))
bit_and-le_fuel (suc n) a b h = elim (Bool-cases (a == 0)) [
  | inl e ↦
      let z : a ≡ 0 = ground arith in
      subst (λ x. bit_and x b ≤ x) (sym z) (omega (arith, zero-bit_and b))
  | inr e ↦ omega (arith, bit_and_step a b, bit_and-le_fuel n (a / 2) (b / 2) (ground arith))
]

-- Every bit of the first number is one of the second.
abbrev pub HasBits : ℕ → ℕ → Type 0
HasBits p c = bit_and c p ≡ c

bit_or-half : (a b : ℕ) → bit_or a b / 2 ≡ bit_or (a / 2) (b / 2)
bit_or-half a b = omega (arith, bit_or_step a b)

bit_or-low : (a b : ℕ) → bit_or a b % 2 ≡ max (a % 2) (b % 2)
bit_or-low a b = omega (arith, bit_or_step a b)

-- The digits behind the lowest one, and the lowest.
HasBits-half : (p c : ℕ) → HasBits p c → HasBits (p / 2) (c / 2)
HasBits-half p c h =
    omega (arith, bit_and_step c p, bit_and-le_fuel (c / 2) (c / 2) (p / 2) (omega arith))

HasBits-low : (p c : ℕ) → HasBits p c → min (c % 2) (p % 2) ≡ c % 2
HasBits-low p c h =
    omega (arith, bit_and_step c p, bit_and-le_fuel (c / 2) (c / 2) (p / 2) (omega arith))

HasBits-join : (p c : ℕ) → HasBits (p / 2) (c / 2) → min (c % 2) (p % 2) ≡ c % 2 → HasBits p c
HasBits-join p c h k = omega (arith, bit_and_step c p)

bit_or-left_fuel : (n c p q : ℕ) → c ≤ n → HasBits p c → HasBits (bit_or p q) c
bit_or-left_fuel n zero p q h e = zero-bit_and (bit_or p q)
bit_or-left_fuel zero (suc c) p q h e = absurd (omega arith)
bit_or-left_fuel (suc n) (suc c) p q h e =
    HasBits-join (bit_or p q) (suc c)
      (subst (λ x. HasBits x (suc c / 2)) (sym (bit_or-half p q))
        (bit_or-left_fuel n (suc c / 2) (p / 2) (q / 2) (omega arith) (HasBits-half p (suc c) e)))
      (omega (arith, bit_or-low p q, HasBits-low p (suc c) e))

pub bit_or-left : (c p q : ℕ) → HasBits p c → HasBits (bit_or p q) c
bit_or-left c p q h = bit_or-left_fuel c c p q (omega arith) h

bit_or-right_fuel : (n c p : ℕ) → c ≤ n → HasBits (bit_or p c) c
bit_or-right_fuel n zero p h = zero-bit_and (bit_or p 0)
bit_or-right_fuel zero (suc c) p h = absurd (omega arith)
bit_or-right_fuel (suc n) (suc c) p h =
    HasBits-join (bit_or p (suc c)) (suc c)
      (subst (λ x. HasBits x (suc c / 2)) (sym (bit_or-half p (suc c)))
        (bit_or-right_fuel n (suc c / 2) (p / 2) (omega arith)))
      (omega (arith, bit_or-low p (suc c)))

pub bit_or-right : (c p : ℕ) → HasBits (bit_or p c) c
bit_or-right c p = bit_or-right_fuel c c p (omega arith)
