-- ===== src/Visit/LastExecve.antt =====
-- What FindLastExecve finds, whatever the order in which the edges are examined.
use cheriplot.Base.{
  [], ◌∷◌, none, some, inl, inr, ℕ, ◌≡◌, refl, List, ◌⊎◌, true, if◌then◌else◌, false, subst, arith,
  Bool-cases, ap, sym, ◌∙◌, Among,
}
use cheriplot.Graph.{GraphTool}
use cheriplot.Visit.State.{Visit}
use cheriplot.Visit.Execve.{FindLastExecve, found_execve, examine_edges, find_last_execve}
use cheriplot.Base.Errors.{ok}
use cheriplot.Base.Int.{pos, negsuc, ltb_ℤ, ℤ}
use cheriplot.Base.Post.{Post, done, Post-bind, Post-ok, Post-mono}
use cheriplot.Visit.ExecveCall.{IsSequential, IsExecve, Found, Outcome, examine_edge-Outcome}

module _ ⦃gt : GraphTool⦄ where
  -- A later call is found: the time of the call only grows.
  Found-later :
      (s : Visit) (es : List ℕ) (e r : ℕ) (f : FindLastExecve)
      → IsSequential s es
      → Among e es
      → IsExecve s e r
      → Found s es f
      → ltb_ℤ f.last_execve (pos r) ≡ true
      → ltb_ℤ (pos (s.pgm.edge_time e)) f.last_execve ≡ false
  Found-later s es e r f seq among x (inl (last, call, vertex)) later = rw last (ground arith)
  Found-later s es e r f seq among x (inr (e', r', found)) later = rw found.last (
      let order = seq e' e r' r found.among among found.execve x in
      let later' = rw found.last at later in
      elim order.1 [ inl same ↦ rw same (ground arith) | inr apart ↦ ground arith ])

  -- A call that is passed over is not later.
  Found-earlier :
      (s : Visit) (es : List ℕ) (e r : ℕ) (f : FindLastExecve)
      → IsSequential s es
      → Among e es
      → IsExecve s e r
      → Found s es f
      → ltb_ℤ f.last_execve (pos r) ≡ false
      → ltb_ℤ f.last_execve (pos (s.pgm.edge_time e)) ≡ false
  Found-earlier s es e r f seq among x (inl (last, call, vertex)) earlier =
      let below = rw last at earlier in ground arith
  Found-earlier s es e r f seq among x (inr (e', r', found)) earlier = rw found.last (
      let order = seq e e' r r' among found.among x found.execve in
      let earlier' = rw found.last at earlier in ground arith)

  irreflexive : (z : ℤ) → ltb_ℤ z z ≡ false
  irreflexive z = ground arith

  -- What holds behind a step.
  abbrev Next : Visit → List ℕ → ℕ → FindLastExecve → FindLastExecve → Type 0
  Next s es e f g =
      (g.visit ≡ s)
      × Found s es g
      × (ltb_ℤ g.last_execve f.last_execve ≡ false)
      × ((r : ℕ) → IsExecve s e r → ltb_ℤ g.last_execve (pos (s.pgm.edge_time e)) ≡ false)

  Found-Next :
      (s : Visit) (es : List ℕ) (e r : ℕ) (f : FindLastExecve)
      → f.visit ≡ s
      → IsSequential s es
      → Among e es
      → IsExecve s e r
      → Found s es f
      → Next s es e f (if ltb_ℤ f.last_execve (pos r) then found_execve e r f else f)
  unfolding found_execve
  Found-Next s es e r f vis seq among x found = elim (Bool-cases (ltb_ℤ f.last_execve (pos r))) [
    | inl later ↦ rw later (
        let when : f.visit.pgm.edge_time e ≡ s.pgm.edge_time e =
          ap (λ (v : Visit). v.pgm.edge_time e) vis in
        (
          vis,
          inr (
            e,
            r,
            record {
              among = among;
              execve = x;
              last = ap pos when;
              call = ap pos when;
              return_time = refl;
              vertex = ap (λ (v : Visit). some (gt.target v.pgm.graph e)) vis;
            },
          ),
          rw when (Found-later s es e r f seq among x found later),
          λ q y. rw when (irreflexive (pos (s.pgm.edge_time e))),
        ))
    | inr earlier ↦ rw earlier (
      vis,
      found,
      irreflexive f.last_execve,
      λ q y. Found-earlier s es e r f seq among x found earlier,
    )
  ]

  Found-step :
      (s : Visit) (es : List ℕ) (e : ℕ) (f g : FindLastExecve)
      → f.visit ≡ s
      → IsSequential s es
      → Among e es
      → Found s es f
      → Outcome e f g
      → Next s es e f g
  Found-step s es e f g vis seq among found (inl (same, not_one)) =
      subst (Next s es e f) (sym same) (
        vis,
        found,
        irreflexive f.last_execve,
        λ r x. absurd (not_one r (subst (λ v. IsExecve v e r) (sym vis) x)),
      )
  Found-step s es e f g vis seq among found (inr (r, x, same)) =
      subst (Next s es e f) (sym same)
        (Found-Next s es e r f vis seq among (subst (λ v. IsExecve v e r) vis x) found)

  not_below : (a b c : ℤ) → ltb_ℤ b a ≡ false → ltb_ℤ c b ≡ false → ltb_ℤ c a ≡ false
  not_below a b c h k = ground arith

  -- What holds when the edges `rest` of the list have been examined.
  abbrev End : Visit → List ℕ → List ℕ → FindLastExecve → FindLastExecve → Type 0
  End s es rest f g =
      (g.visit ≡ s)
      × Found s es g
      × (ltb_ℤ g.last_execve f.last_execve ≡ false)
      × ((e r : ℕ)
          → Among e rest
          → IsExecve s e r
          → ltb_ℤ g.last_execve (pos (s.pgm.edge_time e)) ≡ false)

  at_most :
      (s : Visit) (e : ℕ) (rest : List ℕ) (g t : FindLastExecve)
      → ltb_ℤ t.last_execve g.last_execve ≡ false
      → ((r : ℕ) → IsExecve s e r → ltb_ℤ g.last_execve (pos (s.pgm.edge_time e)) ≡ false)
      → ((x r : ℕ)
          → Among x rest
          → IsExecve s x r
          → ltb_ℤ t.last_execve (pos (s.pgm.edge_time x)) ≡ false)
      → (x r : ℕ) → Among x (e ∷ rest)
      → IsExecve s x r
      → ltb_ℤ t.last_execve (pos (s.pgm.edge_time x)) ≡ false
  at_most s e rest g t grown first others x r (inl same) execve =
      not_below (pos (s.pgm.edge_time x)) g.last_execve t.last_execve
        (subst (λ y. ltb_ℤ g.last_execve (pos (s.pgm.edge_time y)) ≡ false) (sym same)
          (first r (subst (λ y. IsExecve s y r) same execve)))
        grown
  at_most s e rest g t grown first others x r (inr among) execve = others x r among execve

  examine_edges-End :
      (s : Visit) (es rest : List ℕ) (f : FindLastExecve)
      → f.visit ≡ s
      → IsSequential s es
      → ((e : ℕ) → Among e rest → Among e es)
      → Found s es f
      → Post (λ _ g. End s es rest f g) (examine_edges rest f)
  unfolding examine_edges
  examine_edges-End s es [] f vis seq sub found =
      done (vis, found, irreflexive f.last_execve, λ e r a x. absurd a)
  examine_edges-End s es (e ∷ rest) f vis seq sub found =
      Post-bind (examine_edge-Outcome e f) λ _ g out.
        let n = Found-step s es e f g vis seq (sub e (inl refl)) found out in
        Post-mono (examine_edges-End s es rest g n.0 seq (λ x a. sub x (inr a)) n.1) (λ _ t last. (
          last.0,
          last.1,
          not_below f.last_execve g.last_execve t.last_execve n.2 last.2,
          at_most s e rest g t last.2 n.3 last.3,
        ))

  summary :
      (s : Visit) (es : List ℕ) (f : FindLastExecve)
      → Found s es f
      → ((f.execve_call ≡ negsuc 0) × (f.execve_vertex ≡ none))
        ⊎ ((e : ℕ) × (r : ℕ) × Among e es
            × IsExecve s e r
            × (f.execve_call ≡ pos (s.pgm.edge_time e))
            × (f.execve_return ≡ pos r)
            × (f.execve_vertex ≡ some (gt.target s.pgm.graph e)))
  summary s es f (inl (last, call, vertex)) = inl (call, vertex)
  summary s es f (inr (e, r, x)) = inr (e, r, x.among, x.execve, x.call, x.return_time, x.vertex)

  call-last :
      (s : Visit) (es : List ℕ) (f : FindLastExecve) → Found s es f → f.execve_call ≡ f.last_execve
  call-last s es f (inl (last, call, vertex)) = call ∙ sym last
  call-last s es f (inr (e, r, x)) = x.call ∙ sym x.last

  -- If the visit examines edges without raising, and the calls of execve among them do not overlap,
  -- then it has found a call of execve among them, with its time, the time of its return and its
  -- vertex, unless it has found none; and no call of execve among them starts later than the call
  -- found.
  pub find_last_execve_lem :
      (s : Visit) (es : List ℕ) (f : FindLastExecve)
      → examine_edges es (find_last_execve s) ≡ ok (tt, f)
      → IsSequential s es
      → (((f.execve_call ≡ negsuc 0) × (f.execve_vertex ≡ none))
          ⊎ ((e : ℕ) × (r : ℕ) × Among e es
              × IsExecve s e r
              × (f.execve_call ≡ pos (s.pgm.edge_time e))
              × (f.execve_return ≡ pos r)
              × (f.execve_vertex ≡ some (gt.target s.pgm.graph e))))
        × ((e r : ℕ)
            → Among e es
            → IsExecve s e r
            → ltb_ℤ f.execve_call (pos (s.pgm.edge_time e)) ≡ false)
  unfolding find_last_execve
  find_last_execve_lem s es f ran seq =
      let end_state =
        Post-ok tt f
          (examine_edges-End s es es (find_last_execve s) refl seq (λ e a. a)
            (inl (refl, refl, refl)))
          ran in
      (
        summary s es f end_state.1,
        λ e r a x.
            subst (λ z. ltb_ℤ z (pos (s.pgm.edge_time e)) ≡ false)
              (sym (call-last s es f end_state.1)) (end_state.3 e r a x),
      )
