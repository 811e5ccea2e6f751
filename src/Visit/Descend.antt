-- ===== src/Visit/Descend.antt =====
-- What DecorateStackCapabilities marks, in whatever order the edges are examined.
use cheriplot.Base.{
  [], ◌∷◌, some, ℕ, ◌≡◌, refl, List, if◌then◌else◌, true, false, ◌==◌, arith, ap, sym, ◌∙◌, String,
  ◌↔◌, inl, inr,
}
use mathlib.Core.Path.{fun_ext}
use cheriplot.Visit.Base.{run, Call, examine_edge, examine_vertex}
use cheriplot.Graph.{GraphTool}
use cheriplot.Model.Manager.{Pgm}
use cheriplot.Visit.Decorate.{stack_edge, spread, decorate_stack_capabilities}
use cheriplot.Visit.State.{Visit, put_named, new_named}
use cheriplot.Base.Int.{pos}
use cheriplot.Base.Errors.{ok, Result, err}
use cheriplot.Visit.Marks.{
  IsLeft, Walk, edges_of, mark, mark_all, mark_all_sound, mark_all_complete,
}

module _ ⦃gt : GraphTool⦄ where
  abbrev name : String
  name = "annotated_usr_stack"

  -- The state behind `examine_edge`.
  rooted : ℕ → ℕ → Visit → Visit
  rooted root e s =
      if gt.source s.pgm.graph e == root then put_named name (gt.source s.pgm.graph e) true s else s

  stack_step : ℕ → ℕ → Visit → Visit
  unfolding rooted spread
  stack_step root e s = spread name e (rooted root e s)

  stack_edge-step :
      (root e : ℕ) (s : Visit)
      → s.gp "stack_vertex" ≡ some (pos root)
      → stack_edge e s ≡ ok (tt, stack_step root e s)
  unfolding stack_edge stack_step
  stack_edge-step root e s h = ground arith

  stack_step-pgm : (root e : ℕ) (s : Visit) → (stack_step root e s).pgm ≡ s.pgm
  unfolding stack_step
  stack_step-pgm root e s = ground arith

  stack_step-gp : (root e : ℕ) (s : Visit) → (stack_step root e s).gp ≡ s.gp
  unfolding stack_step
  stack_step-gp root e s = ground arith

  stack_step-vp :
      (root e : ℕ) (s : Visit) (w : ℕ)
      → (stack_step root e s).vp name w ≡ mark s.pgm root e (s.vp name) w
  unfolding stack_step mark
  stack_step-vp root e s w = ground arith

  stack_steps : ℕ → List ℕ → Visit → Visit
  stack_steps root [] s = s
  stack_steps root (e ∷ es) s = stack_steps root es (stack_step root e s)

  run_stack :
      (root : ℕ) (cs : List Call) (s : Visit)
      → s.gp "stack_vertex" ≡ some (pos root)
      → run decorate_stack_capabilities cs s ≡ ok (tt, stack_steps root (edges_of cs) s)
  unfolding run decorate_stack_capabilities stack_steps
  run_stack root [] s h = refl
  run_stack root (examine_vertex v ∷ cs) s h = run_stack root cs s h
  run_stack root (examine_edge e ∷ cs) s h =
      ap
        (λ (r : Result (Unit {0} × Visit)). elim r [
          | ok (a, t) ↦ run decorate_stack_capabilities cs t
          | err x ↦ err x
        ])
        (stack_edge-step root e s h)
      ∙ run_stack root cs (stack_step root e s)
          (ap (λ g. g "stack_vertex") (stack_step-gp root e s) ∙ h)

  stack_steps-vp :
      (root : ℕ) (es : List ℕ) (s : Visit) (pgm : Pgm)
      → s.pgm ≡ pgm
      → (stack_steps root es s).vp name ≡ mark_all pgm root es (s.vp name)
  unfolding stack_steps mark_all
  stack_steps-vp root [] s pgm h = refl
  stack_steps-vp root (e ∷ es) s pgm h =
      stack_steps-vp root es (stack_step root e s) pgm (stack_step-pgm root e s ∙ h)
      ∙ ap (mark_all pgm root es)
          (fun_ext (λ w. stack_step-vp root e s w) ∙ ap (λ p. mark p root e (s.vp name)) h)

  -- Where the property `stack_vertex` of the graph is a vertex, the visit does not raise, whatever
  -- the search examines, and a vertex is marked afterwards exactly if an examined edge leaves the stack
  -- vertex, and some examined edges of the provenance layer, in the order in which the search examines
  -- them, form a walk from the stack vertex to it, which may have no edge.
  pub decorate_stack_capabilities-Walk :
      (root : ℕ) (cs : List Call) (s : Visit)
      → s.gp "stack_vertex" ≡ some (pos root)
      → (t : Visit) × (run decorate_stack_capabilities cs (decorate_stack_capabilities.init s)
          ≡ ok (tt, t))
        × ((w : ℕ)
            → (t.vp "annotated_usr_stack" w ≡ true)
              ↔ (IsLeft s.pgm root (edges_of cs) × Walk s.pgm root (edges_of cs) root w))
  unfolding decorate_stack_capabilities
  decorate_stack_capabilities-Walk root cs s h =
      let es = edges_of cs in
      let start_state = new_named name s in
      let marks = stack_steps-vp root es start_state s.pgm refl in
      (
        stack_steps root es start_state,
        run_stack root cs start_state h,
        λ w. (
          λ m. elim (mark_all_sound s.pgm root es (λ v. false) w (sym (ap (λ f. f w) marks) ∙ m)) [
            | inl old ↦ cc (old.1)
            | inr walk ↦ walk
          ],
          λ walk. ap (λ f. f w) marks ∙ mark_all_complete s.pgm root es (λ v. false) w (inr walk),
        ),
      )
