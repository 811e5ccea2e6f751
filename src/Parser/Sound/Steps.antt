-- ===== src/Parser/Sound/Steps.antt =====
-- Chains of steps of the shared state, and the asserts of the callbacks.
use cheriplot.Base.Post.{Post, done, failed, Post-result, Post-bind, Post-mono}
use cheriplot.Graph.{GraphTool}
use cheriplot.Parser.State.{Core, as_cap}
use cheriplot.Base.{Bool, ℕ, true, opt_eq, some, false}
use cheriplot.Base.Errors.{Result, Error, pure, check, of_result, ok, err, assertion, ◌>>=◌}
use cheriplot.Parser.Defer.{assert_matches, as_register}
use cheriplot.Base.Int.{ℤ}
use cheriplot.Trace.{Entry, Value}
use cheriplot.Parser.Shape.{Next, IsSound, Next-refl, Next-trans}
use cheriplot.Model.Vertex.{ProvenanceVertexData}
use cheriplot.Parser.RegisterSet.{get_reg, set_reg}
use cheriplot.Parser.Nodes.{make_root_node}
use cheriplot.Parser.Sound.Regs.{get_reg-Post}
use cheriplot.Parser.Sound.Nodes.{make_root_node-Post}
use cheriplot.Parser.Sound.SetReg.{set_reg-Post}

module _ ⦃gt : GraphTool⦄ where
  -- A step, and what follows from the state behind it.
  pub Next-bind :
      {A B : Type 0} {s : Core} {r : Result (A × Core)} {f : A → Core → Result (B × Core)}
      → Post (λ _ t. Next s t) r
      → ((a : A) (t : Core) → IsSound t → Post (λ _ u. Next t u) (f a t))
      → Post (λ _ u. Next s u) (elim r [ ok (a, t) ↦ f a t | err e ↦ err e ])
  Next-bind m k = Post-bind m λ a t n. Post-mono (k a t n.sound) λ _ u l. Next-trans n l

  -- The same, for a step whose result has a property.
  pub Held-bind {κ} :
      {A B : Type 0} {P : A → Core → Type κ} {s : Core} {r : Result (A × Core)}
      {f : A → Core → Result (B × Core)}
      → Post (λ a t. Next s t × P a t) r
      → ((a : A) (t : Core) → Next s t → P a t → Post (λ _ u. Next t u) (f a t))
      → Post (λ _ u. Next s u) (elim r [ ok (a, t) ↦ f a t | err e ↦ err e ])
  Held-bind m k = Post-bind m λ a t (n, p). Post-mono (k a t n p) λ _ u l. Next-trans n l

  -- A step that the statements behind it already run in.
  pub after :
      {B : Type 0} {s t : Core} {r : Result (B × Core)}
      → Next s t
      → Post (λ _ u. Next t u) r
      → Post (λ _ u. Next s u) r
  after n p = Post-mono p λ _ u l. Next-trans n l

  pub pure-Post : {A : Type 0} (a : A) (s : Core) → IsSound s → Post (λ _ t. Next s t) (pure a s)
  pure-Post a s h = done (Next-refl h)

  pub check-Post :
      (b : Bool) (e : Error) (s : Core) → IsSound s → Post (λ _ t. Next s t) (check b e s)
  check-Post true e s h = done (Next-refl h)
  check-Post false e s h = failed

  pub result-Post :
      {A : Type 0} (r : Result A) (s : Core) → IsSound s → Post (λ _ t. Next s t) (of_result r s)
  result-Post (ok a) s h = done (Next-refl h)
  result-Post (err e) s h = failed

  pub assert_matches-Post :
      (d : ProvenanceVertexData) (v : Value) (s : Core)
      → IsSound s
      → Post (λ _ t. Next s t) (assert_matches d v s)
  unfolding assert_matches
  assert_matches-Post d v s h = Post-result (as_cap d.cap) s _ λ c _.
      Post-result (as_register v) s _ λ r _.
        Next-bind (check-Post (opt_eq c.base (some r.base)) assertion s h) λ _ t k.
          Next-bind (check-Post (opt_eq c.length (some r.length)) assertion t k)
            λ _ u l. check-Post (opt_eq c.permissions (some r.permissions)) assertion u l

  -- A register takes the value of another.
  pub copy_reg-Post :
      (i j : ℤ) (time : ℕ) (s : Core)
      → IsSound s
      → Post (λ _ t. Next s t) ((do now ← get_reg i; set_reg j now time) s)
  copy_reg-Post i j time s h =
      Held-bind (get_reg-Post i s h) λ v t n held. set_reg-Post j v time t n.sound held

  -- A new root goes to a register.
  pub root_reg-Post :
      (entry : Entry) (v : Value) (j : ℤ) (time : ℕ) (s : Core)
      → IsSound s
      → Post
          (λ _ t. Next s t)
          ((do node ← make_root_node entry v entry.cycles; set_reg j (some node) time) s)
  root_reg-Post entry v j time s h =
      Held-bind (make_root_node-Post entry v entry.cycles s h)
        λ node t n held. set_reg-Post j (some node) time t n.sound held
