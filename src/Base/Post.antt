-- ===== src/Base/Post.antt =====
-- Postconditions of calls, with a rule for each form of statement.
use cheriplot.Base.{◌≡◌, refl, subst, Bool, true, false, Option, none, some, if◌then◌else◌}
use cheriplot.Base.Errors.{Error, Result, ok, err, M, of_result, or_raise, check, when}

-- A postcondition of a call: what holds of the result and the state if it does not raise.
pub data Post {ℓ} {S A : Type 0} (Q : A → S → Type ℓ) : Result (A × S) → Type ℓ where
  done : {a : A} {t : S} → Q a t → Post Q (ok (a, t))
  failed : {e : Error} → Post Q (err e)

-- The rule for a bind.
pub Post-bind {ℓ κ} :
    {S A B : Type 0} {R : A → S → Type κ} {Q : B → S → Type ℓ} {r : Result (A × S)}
    {f : A → S → Result (B × S)}
    → Post R r
    → ((a : A) (t : S) → R a t → Post Q (f a t))
    → Post Q (elim r [ ok (a, t) ↦ f a t | err e ↦ err e ])
Post-bind (done {a} {t} h) k = k a t h
Post-bind failed k = failed

-- What a postcondition says of a call that returned.
pub Post-ok {ℓ} :
    {S A : Type 0} {Q : A → S → Type ℓ} {r : Result (A × S)} (a : A) (t : S)
    → Post Q r
    → r ≡ ok (a, t)
    → Q a t
Post-ok {Q} a t (done {a = b} {t = u} h) e =
    subst (λ r. elim r [ ok (c, w) ↦ Q c w | err _ ↦ Unit ]) e h
Post-ok a t (failed {e = x}) e = cc

module _ {ℓ} {S A : Type 0} {Q : A → S → Type ℓ} where
  pub Post-if :
      (b : Bool) (m n : M S A) (s : S)
      → (b ≡ true → Post Q (m s))
      → (b ≡ false → Post Q (n s))
      → Post Q ((if b then m else n) s)
  Post-if true m n s h k = h refl
  Post-if false m n s h k = k refl

  pub Post-mono {κ} :
      {R : A → S → Type κ} {r : Result (A × S)}
      → Post R r
      → ((a : A) (t : S) → R a t → Q a t)
      → Post Q r
  Post-mono (done {a} {t} h) k = done (k a t h)
  Post-mono failed k = failed

module _ {ℓ} {S : Type 0} {Q : Unit {0} → S → Type ℓ} where
  pub Post-when :
      (b : Bool) (m : M S (Unit {0})) (s : S)
      → (b ≡ true → Post Q (m s))
      → Q tt s
      → Post Q (when b m s)
  Post-when true m s h k = h refl
  Post-when false m s h k = done k

  -- The same, with what is known where the step is skipped.
  pub Post-choose :
      (b : Bool) (m : M S (Unit {0})) (s : S)
      → (b ≡ true → Post Q (m s))
      → (b ≡ false → Q tt s)
      → Post Q (when b m s)
  Post-choose true m s h k = h refl
  Post-choose false m s h k = done (k refl)

module _ {ℓ} {S A B : Type 0} {Q : B → S → Type ℓ} where
  pub Post-result :
      (r : Result A) (s : S) (f : A → S → Result (B × S))
      → ((a : A) → r ≡ ok a → Post Q (f a s))
      → Post Q (elim (of_result {S = S} r s) [ ok (a, t) ↦ f a t | err e ↦ err e ])
  Post-result (ok a) s f h = h a refl
  Post-result (err e) s f h = failed

  pub Post-option :
      (o : Option A) (e : Error) (s : S) (f : A → S → Result (B × S))
      → ((a : A) → o ≡ some a → Post Q (f a s))
      → Post Q (elim (or_raise {S = S} o e s) [ ok (a, t) ↦ f a t | err e ↦ err e ])
  Post-option none e s f h = failed
  Post-option (some a) e s f h = h a refl

module _ {ℓ} {S A : Type 0} {Q : A → S → Type ℓ} where
  pub Post-some :
      (o : Option A) (e : Error) (s : S)
      → ((a : A) → o ≡ some a → Q a s)
      → Post Q (or_raise {S = S} o e s)
  Post-some none e s h = failed
  Post-some (some a) e s h = done (h a refl)

module _ {ℓ} {S B : Type 0} {Q : B → S → Type ℓ} where
  pub Post-check :
      (b : Bool) (e : Error) (s : S) (f : Unit {0} → S → Result (B × S))
      → (b ≡ true → Post Q (f tt s))
      → Post Q (elim (check {S = S} b e s) [ ok (a, t) ↦ f a t | err e ↦ err e ])
  Post-check true e s f h = h refl
  Post-check false e s f h = failed

module _ {ℓ} {S A B : Type 0} {Q : B → S → Type ℓ} where
  pub Post-cases :
      (o : Option A) (m : M S B) (f : A → M S B) (s : S)
      → (o ≡ none → Post Q (m s))
      → ((a : A) → o ≡ some a → Post Q (f a s))
      → Post Q ((elim o as (λ _. M S B) [ none ↦ m | some a ↦ f a ]) s)
  Post-cases none m f s h k = h refl
  Post-cases (some a) m f s h k = k a refl
