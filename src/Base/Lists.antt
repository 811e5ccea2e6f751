-- ===== src/Base/Lists.antt =====
-- Lists measured and indexed by native numbers, and Python dicts in insertion order.
use Prim.Native.Nat.{ℕ, zero, suc, ◌+◌, ◌<◌}
use mathlib.Core.Path.{◌≡◌, refl, ap}
use mathlib.Core.Logic.{◌≢◌, ◌⊎◌, inl, inr, ◌↔◌}
use mathlib.Core.Bool.{Bool, true, false}
use mathlib.Core.List.{List, [], ◌∷◌, ◌++◌}
use mathlib.Core.Option.{Option, none, some}
use native.Mathlib.Omega.{arith}
use cheriplot.Base.Tests.{◌==◌, if◌then◌else◌}

module _ {ℓ} {A : Type ℓ} where
  abbrev pub length : List A → ℕ
  length [] = 0
  length (x ∷ xs) = suc (length xs)

  abbrev pub get_elem? : List A → ℕ → Option A
  get_elem? [] i = none
  get_elem? (x ∷ xs) zero = some x
  get_elem? (x ∷ xs) (suc i) = get_elem? xs i

  -- A write out of bounds changes nothing.
  abbrev pub set : List A → ℕ → A → List A
  set [] i v = []
  set (x ∷ xs) zero v = v ∷ xs
  set (x ∷ xs) (suc i) v = x ∷ set xs i v

  abbrev pub replicate : ℕ → A → List A
  replicate zero a = []
  replicate (suc n) a = a ∷ replicate n a

  pub length-append : (xs ys : List A) → length (xs ++ ys) ≡ length xs + length ys
  length-append [] ys = omega arith
  length-append (x ∷ xs) ys = omega (arith, length-append xs ys)

  pub length-set : (xs : List A) (i : ℕ) (v : A) → length (set xs i v) ≡ length xs
  length-set [] i v = refl
  length-set (x ∷ xs) zero v = refl
  length-set (x ∷ xs) (suc i) v = ap suc (length-set xs i v)

  pub get_elem?-set_self :
      (xs : List A) (i : ℕ) (v : A) → i < length xs → get_elem? (set xs i v) i ≡ some v
  get_elem?-set_self [] i v h = elim h [ ]
  get_elem?-set_self (x ∷ xs) zero v h = refl
  get_elem?-set_self (x ∷ xs) (suc i) v h = get_elem?-set_self xs i v (omega arith)

  pub get_elem?-set_ne :
      (xs : List A) (i j : ℕ) (v : A) → i ≢ j → get_elem? (set xs i v) j ≡ get_elem? xs j
  get_elem?-set_ne [] i j v h = refl
  get_elem?-set_ne (x ∷ xs) zero zero v h = absurd (h refl)
  get_elem?-set_ne (x ∷ xs) zero (suc j) v h = refl
  get_elem?-set_ne (x ∷ xs) (suc i) zero v h = refl
  get_elem?-set_ne (x ∷ xs) (suc i) (suc j) v h = get_elem?-set_ne xs i j v (λ e. h (ap suc e))

-- A dict whose keys are addresses: its entries, the oldest first.
abbrev pub Dict {ℓ} : Type ℓ → Type ℓ
Dict Entry = List (ℕ × Entry)

module _ {ℓ} {Entry : Type ℓ} where
  -- `d.get(addr)`, as the entry or none.
  abbrev pub lookup : ℕ → Dict Entry → Option Entry
  lookup addr [] = none
  lookup addr ((other, found) ∷ entries) =
      let rest = lookup addr entries in if addr == other then some found else rest

  -- `d[addr] = new`: a key that is there keeps its place.
  abbrev pub insert : ℕ → Entry → Dict Entry → Dict Entry
  insert addr new [] = (addr, new) ∷ []
  insert addr new ((other, old) ∷ entries) =
      let rest = insert addr new entries in
      if addr == other then (other, new) ∷ entries else (other, old) ∷ rest

  -- `del d[addr]` of a key that is there; a key that is not changes nothing.
  abbrev pub erase : ℕ → Dict Entry → Dict Entry
  erase addr [] = []
  erase addr ((other, old) ∷ entries) =
      let rest = erase addr entries in if addr == other then entries else (other, old) ∷ rest

  -- No key is listed twice: what holds of every dict.
  abbrev pub IsDict : Dict Entry → Type ℓ
  IsDict [] = Unit
  IsDict ((other, old) ∷ entries) = (lookup other entries ≡ none) × IsDict entries

  pub lookup-insert :
      (addr key : ℕ) (new : Entry) (d : Dict Entry)
      → lookup addr (insert key new d) ≡ (if addr == key then some new else lookup addr d)
  lookup-insert addr key new [] = refl
  lookup-insert addr key new ((other, old) ∷ entries) =
      ground (arith, lookup-insert addr key new entries)

  pub lookup-erase :
      (addr key : ℕ) (d : Dict Entry)
      → IsDict d
      → lookup addr (erase key d) ≡ (if addr == key then none else lookup addr d)
  lookup-erase addr key [] h = ground arith
  lookup-erase addr key ((other, old) ∷ entries) h =
      ground (arith, lookup-erase addr key entries h.1)

  pub insert-IsDict :
      (key : ℕ) (new : Entry) (d : Dict Entry) → IsDict d → IsDict (insert key new d)
  insert-IsDict key new [] h = (refl, tt)
  insert-IsDict key new ((other, old) ∷ entries) h =
      ground (arith, insert-IsDict key new entries h.1, lookup-insert other key new entries)

  pub erase-IsDict : (key : ℕ) (d : Dict Entry) → IsDict d → IsDict (erase key d)
  erase-IsDict key [] h = tt
  erase-IsDict key ((other, old) ∷ entries) h =
      ground (arith, erase-IsDict key entries h.1, lookup-erase other key entries h.1)

-- `x in xs`, for vertices and None.
abbrev pub mem_opt : ℕ → List (Option ℕ) → Bool
mem_opt v [] = false
mem_opt v (none ∷ xs) = mem_opt v xs
mem_opt v (some u ∷ xs) = if v == u then true else mem_opt v xs

abbrev pub mem_nat : ℕ → List ℕ → Bool
mem_nat v [] = false
mem_nat v (u ∷ xs) = if v == u then true else mem_nat v xs

-- Membership, by recursion.
abbrev pub Among : ℕ → List ℕ → Type 0
Among e [] = ⊥
Among e (x ∷ xs) = (e ≡ x) ⊎ Among e xs

-- Some element of the list has the property.
abbrev pub Has {ℓ} : {A : Type ℓ} → (A → Type 0) → List A → Type 0
Has P [] = ⊥
Has P (r ∷ rs) = P r ⊎ Has P rs

pub Has-append {ℓ} :
    {A : Type ℓ} (P : A → Type 0) (xs ys : List A) → Has P (xs ++ ys) ↔ (Has P xs ⊎ Has P ys)
Has-append P [] ys = (inr, λ h. elim h [ inl x ↦ absurd x | inr x ↦ x ])
Has-append P (r ∷ rs) ys =
    let later = Has-append P rs ys in
    (
      λ h. elim h [
        | inl x ↦ inl (inl x)
        | inr x ↦ elim (later.0 x) [ inl y ↦ inl (inr y) | inr y ↦ inr y ]
      ],
      λ h. elim h [
        | inl x ↦ elim x [ inl y ↦ inl y | inr y ↦ inr (later.1 (inl y)) ]
        | inr x ↦ inr (later.1 (inr x))
      ],
    )

-- A property map: reading after one write.
abbrev pub update {ℓ} : {A : Type ℓ} → (ℕ → A) → ℕ → A → ℕ → A
update f k v j = if j == k then v else f j

pub update_self {ℓ} : {A : Type ℓ} (f : ℕ → A) (k : ℕ) (a : A) → update f k a k ≡ a
update_self f k a = ground arith

pub update_ne {ℓ} : {A : Type ℓ} (f : ℕ → A) (k j : ℕ) (a : A) → j ≢ k → update f k a j ≡ f j
update_ne f k j a h = ground arith
