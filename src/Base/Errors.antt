-- ===== src/Base/Errors.antt =====
-- The exceptions of provenance/parser/error.py and of Python, and the state monad with exceptions
-- in which the parser is modelled. No handler of the program reads the state that an exception
-- leaves behind (`_scan` logs and raises again), so a raise drops it.
use cheriplot.Base.{Bool, true, false, Option, none, some}

pub data Error : Type 0 where
  subgraph_merge missing_parent dereference_unknown_capability unexpected_operation : Error
  assertion not_implemented value_error attribute_error type_error index_error key_error
        runtime_error :
      Error

pub data Result {ℓ} (A : Type ℓ) : Type ℓ where
  ok : A → Result A
  err : Error → Result A

abbrev pub M : Type 0 → Type 0 → Type 0
M S A = S → Result (A × S)

module _ {S : Type 0} where
  abbrev pub pure : {A : Type 0} → A → M S A
  pure a s = ok (a, s)

  abbrev pub raise : {A : Type 0} → Error → M S A
  raise e s = err e

  abbrev pub get : M S S
  get s = ok (s, s)

  abbrev pub gets : {A : Type 0} → (S → A) → M S A
  gets f s = ok (f s, s)

  abbrev pub modify : (S → S) → M S (Unit {0})
  modify f s = ok (tt, f s)

  infixl 5 ◌>>=◌ ◌>>◌
  abbrev pub ◌>>=◌ : {A B : Type 0} → M S A → (A → M S B) → M S B
  ◌>>=◌ m f s = elim (m s) [ ok (a, s') ↦ f a s' | err e ↦ err e ]

  abbrev pub ◌>>◌ : {B : Type 0} → M S (Unit {0}) → M S B → M S B
  m >> k = m >>= λ _. k

  -- `assert b`
  abbrev pub check : Bool → Error → M S (Unit {0})
  check true e = pure tt
  check false e = raise e

  abbrev pub when : Bool → M S (Unit {0}) → M S (Unit {0})
  when true m = m
  when false m = pure tt

  abbrev pub of_result : {A : Type 0} → Result A → M S A
  of_result (ok a) s = ok (a, s)
  of_result (err e) s = err e

  abbrev pub or_raise : {A : Type 0} → Option A → Error → M S A
  or_raise none e = raise e
  or_raise (some a) e = pure a
