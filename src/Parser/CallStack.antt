-- ===== src/Parser/CallStack.antt =====
-- Calls and returns of the class CallgraphSubparser (provenance/parser/sub_mips.py) on its stack.
use cheriplot.Base.Post.{Post, done, Post-option, Post-ok, Post-result, Post-when}
use cheriplot.Base.{◌∷◌, some, Option, ℕ, List, ◌≡◌, ◌≢◌, ◌<◌, ◌∙◌, refl, ◌==◌, ap, true, arith}
use cheriplot.Graph.{GraphTool}
use cheriplot.Parser.Frames.{make_call, make_return, top, pop}
use cheriplot.Trace.{Entry, TraceRegs}
use cheriplot.Base.Int.{ℤ}
use cheriplot.Model.Manager.{EdgeOperation}
use cheriplot.Parser.Worker.{Worker}
use cheriplot.Parser.State.{Core, as_call}
use cheriplot.Base.Errors.{ok, assertion, index_error}

popped_first :
    (xs : List (ℕ × Option ℤ)) (f : ℕ × Option ℤ) (fs : List (ℕ × Option ℤ)) (p : ℕ × Option ℤ)
    (r : ℕ)
    → xs ≡ f ∷ fs
    → top xs ≡ some p
    → (p.0 == r) ≡ true
    → f.0 ≡ r
popped_first xs f fs p r e h k = ground arith

module _ ⦃gt : GraphTool⦄ where
  make_call-call_stack :
      (entry : Entry) (regs : TraceRegs) (callee link : Option ℤ) (op : EdgeOperation) (w : Worker)
      → Post
          (λ _ v.
            (v.calls.call_stack ≡ (gt.num_vertices w.core.pgm.graph, link) ∷ w.calls.call_stack)
            × (v.calls.root ≡ w.calls.root))
          (make_call entry regs callee link op w)
  unfolding make_call
  make_call-call_stack entry regs callee link op w =
      Post-option (top w.calls.call_stack) assertion _ _ λ parent e. done (refl, refl)

  make_return-call_stack :
      (entry : Entry) (regs : TraceRegs) (f : ℕ × Option ℤ) (fs : List (ℕ × Option ℤ)) (w : Worker)
      → w.calls.call_stack ≡ f ∷ fs
      → f.0 ≢ w.calls.root
      → Post
          (λ _ v. (v.calls.call_stack ≡ fs) × (v.calls.root ≡ w.calls.root))
          (make_return entry regs w)
  unfolding make_return
  make_return-call_stack entry regs f fs w e n =
      Post-option (top w.calls.call_stack) index_error w _ λ popped e1.
        Post-result (as_call (w.core.pgm.data_of popped.0)) _ _ λ d e2.
          Post-when (popped.0 == w.calls.root) _ _
            (λ same.
              absurd (n (popped_first w.calls.call_stack f fs popped w.calls.root e e1 same)))
            (ap pop e, refl)

  -- A call and the return from its frame, whatever happened to the shared state in between, leave
  -- the stack and the root as they were, if neither raises and the root is an older vertex.
  pub make_return-make_call :
      (entry entry' : Entry) (regs regs' : TraceRegs) (callee link : Option ℤ) (op : EdgeOperation)
      (w w1 w2 : Worker) (t : Core)
      → w.calls.root < gt.num_vertices w.core.pgm.graph
      → make_call entry regs callee link op w ≡ ok (tt, w1)
      → make_return entry' regs' (record w1 { core = t }) ≡ ok (tt, w2)
      → (w2.calls.call_stack ≡ w.calls.call_stack) × (w2.calls.root ≡ w.calls.root)
  make_return-make_call entry entry' regs regs' callee link op w w1 w2 t h e e' =
      let c = Post-ok tt w1 (make_call-call_stack entry regs callee link op w) e in
      let r =
        Post-ok tt w2
          (make_return-call_stack entry' regs' (gt.num_vertices w.core.pgm.graph, link)
            w.calls.call_stack (record w1 { core = t }) c.0 (λ q. omega (arith, h, q, c.1)))
          e' in
      (r.0, r.1 ∙ c.1)
