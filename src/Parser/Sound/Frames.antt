-- ===== src/Parser/Sound/Frames.antt =====
-- The frames of the call layer keep the invariant of the worker: no edge of theirs enters the
-- provenance layer.
use cheriplot.Base.Post.{Post, done, Post-option, Post-result, Post-choose}
use cheriplot.Graph.{GraphTool}
use cheriplot.Model.Manager.{VertexData, Pgm, EdgeOperation, call}
use cheriplot.Base.{
  Bool, ℕ, Option, ◌≡◌, List, true, false, arith, ◌∷◌, if◌then◌else◌, some, [], subst, none, leb,
  update, ◌==◌, suc, refl, sym, ◌≢◌, ◌<◌,
}
use cheriplot.Parser.Frames.{
  add_call_vertex, add_call_edge, link_register, link_loop, link_visible_vertices, replace_root,
  make_return, top, append_reg, pop, visible_edge, visible_offset,
}
use cheriplot.Parser.Worker.{CallState, Worker}
use cheriplot.Model.Vertex.{CallVertexData, call_data}
use cheriplot.Base.Int.{ℤ}
use cheriplot.Parser.Shape.{IsProvGraph, IsSound, Next, shape, Next-refl, Grows-refl, Next-trans}
use cheriplot.Parser.State.{Core, as_call}
use cheriplot.Trace.{Entry, TraceRegs}
use cheriplot.Parser.Sound.Running.{
  AreFrames, IsRunning, IsFrame, Later, Keeps, same-Later, Grows-IsFrame, IsStack, Grows-AreFrames,
}
use cheriplot.Base.Errors.{ok, index_error}
use cheriplot.Parser.Sound.Graph.{with_vertex-Next, set_data-Next}
use cheriplot.Parser.Sound.Edges.{with_edge-Next, edge_props-Next}
use cheriplot.Parser.RegisterSet.{cap_regfile_size}
use cheriplot.Parser.Sound.Regs.{Next-IsHeld}

pub as_call-shape : (x : VertexData) (d : CallVertexData) → as_call x ≡ ok d → shape x ≡ none
as_call-shape x d e = ground arith

not_true : (b : Bool) → ¬ (b ≡ true) → b ≡ false
not_true b n = ground arith

top_head :
    (g : ℕ × Option ℤ) (fs : List (ℕ × Option ℤ)) (f : ℕ × Option ℤ)
    → top (g ∷ fs) ≡ some f
    → g.0 ≡ f.0
top_head g fs f e = cc

not_root : (g f r : ℕ) → g ≡ f → g ≡ r → (f == r) ≡ false → ⊥
not_root g f r e h n = ground arith

same_root : (g f r : ℕ) → g ≡ f → (f == r) ≡ true → g ≡ r
same_root g f r e n = ground arith

module _ ⦃gt : GraphTool⦄ where
  fresh-outside : (p : Pgm) → IsProvGraph p → p.layer_prov (gt.num_vertices p.graph) ≡ false
  fresh-outside p g =
      not_true (p.layer_prov (gt.num_vertices p.graph))
        λ e. let n = (g.nodes (gt.num_vertices p.graph) e).below in omega (arith, n)

  pub add_call_vertex-Next :
      (d : CallVertexData) (s : Core)
      → IsSound s
      → Next s (add_call_vertex d s)
        × IsFrame (add_call_vertex d s).pgm (gt.num_vertices s.pgm.graph)
  unfolding add_call_vertex
  add_call_vertex-Next d s h = (
    with_vertex-Next (call d) false (update s.pgm.layer_call (gt.num_vertices s.pgm.graph) true) s
        refl h,
    record {
      below = omega (arith, gt.num_vertices-add_vertex s.pgm.graph);
      outside = fresh-outside s.pgm h.graph;
    },
  )

  pub add_call_edge-Next :
      (u v : ℕ) (op : EdgeOperation) (time addr : ℕ) (regs : List ℕ) (s : Core)
      → IsSound s
      → IsFrame s.pgm v
      → Next s (add_call_edge u v op time addr regs s)
  unfolding add_call_edge
  add_call_edge-Next u v op time addr regs s h f =
      with_edge-Next u v _ _ _ _ s h f.below λ l. absurd (ground (arith, f.outside, l))

  append_reg-Next : (e r : ℕ) (s : Core) → IsSound s → Next s (append_reg e r s)
  append_reg-Next e r s h = edge_props-Next _ _ _ _ s h

  fresh_or :
      (b : Bool) (s : Core) (x y : List (ℕ × ℕ × ℕ) × Core)
      → Next s x.1
      → Next s y.1
      → Next s (if b then x else y).1
  fresh_or true s x y h k = h
  fresh_or false s x y h k = k

  seen_or :
      (o : Option ℕ) (s : Core) (x : List (ℕ × ℕ × ℕ) × Core) (f : ℕ → List (ℕ × ℕ × ℕ) × Core)
      → Next s x.1
      → ((e : ℕ) → Next s (f e).1)
      → Next s (elim o as (λ _. List (ℕ × ℕ × ℕ) × Core) [ none ↦ x | some e ↦ f e ]).1
  seen_or none s x f h k = h
  seen_or (some e) s x f h k = k e

  link_register-Next :
      (v : ℕ) (entry : Entry) (op : EdgeOperation) (r u offset : ℕ) (seen : List (ℕ × ℕ × ℕ))
      (s : Core)
      → IsSound s
      → IsFrame s.pgm v
      → Next s (link_register v entry op r u offset seen s).1
  unfolding link_register
  link_register-Next v entry op r u offset seen s h f =
      let new = add_call_edge-Next u v op entry.cycles offset (r ∷ []) s h f in
      seen_or (visible_edge u offset seen) s _ _ new
        λ e. fresh_or (s.pgm.edge_addr e == offset) s _ _ (append_reg-Next e r s h) new

  stop_or : (b : Bool) (s x : Core) → IsSound s → Next s x → Next s (if b then s else x)
  stop_or true s x h k = Next-refl h
  stop_or false s x h k = k

  offset_or :
      (o : Option ℕ) (s x : Core) (f : ℕ → Core)
      → Next s x
      → ((a : ℕ) → Next s (f a))
      → Next s (elim o as (λ _. Core) [ none ↦ x | some a ↦ f a ])
  offset_or none s x f h k = h
  offset_or (some a) s x f h k = k a

  pub link_loop-Next :
      (v : ℕ) (entry : Entry) (regs : TraceRegs) (op : EdgeOperation) (r : ℕ) (us : List (Option ℕ))
      (seen : List (ℕ × ℕ × ℕ)) (s : Core)
      → IsSound s
      → IsFrame s.pgm v
      → Next s (link_loop v entry regs op r us seen s)
  unfolding link_loop
  link_loop-Next v entry regs op r [] seen s h f = Next-refl h
  link_loop-Next v entry regs op r (none ∷ us) seen s h f =
      stop_or (leb cap_regfile_size r) s _ h (link_loop-Next v entry regs op (suc r) us seen s h f)
  link_loop-Next v entry regs op r (some u ∷ us) seen s h f =
      stop_or (leb cap_regfile_size r) s _ h (
        offset_or (visible_offset regs r) s _ _
          (link_loop-Next v entry regs op (suc r) us seen s h f)
          λ offset.
            let n = link_register-Next v entry op r u offset seen s h f in
            Next-trans n (
              link_loop-Next v entry regs op (suc r) us
                (link_register v entry op r u offset seen s).0
                (link_register v entry op r u offset seen s).1 n.sound (Grows-IsFrame n.grows f)))

  pub link_visible_vertices-Post :
      (v : ℕ) (entry : Entry) (regs : TraceRegs) (op : EdgeOperation) (s : Core)
      → IsSound s
      → IsFrame s.pgm v
      → Post (λ _ t. Next s t) (link_visible_vertices v entry regs op s)
  unfolding link_visible_vertices
  link_visible_vertices-Post v entry regs op s h f =
      done (link_loop-Next v entry regs op 0 s.reg_nodes [] s h f)

  pub top-IsFrame :
      (p : Pgm) (fs : List (ℕ × Option ℤ)) (f : ℕ × Option ℤ)
      → AreFrames p fs
      → top fs ≡ some f
      → IsFrame p f.0
  top-IsFrame p [] f h e = cc
  top-IsFrame p (g ∷ fs) f h e = subst (λ x. IsFrame p x) (top_head g fs f e) h.0

  pub pop-AreFrames : (p : Pgm) (fs : List (ℕ × Option ℤ)) → AreFrames p fs → AreFrames p (pop fs)
  pop-AreFrames p [] h = tt
  pop-AreFrames p (f ∷ fs) h = h.1

  -- The state with other frames.
  pub put_calls-Later :
      (c : CallState) (w : Worker)
      → IsRunning w
      → AreFrames w.core.pgm c.call_stack
      → IsStack c.root c.call_stack
      → Later w (record w { calls = c })
  put_calls-Later c w h frames stack =
      same-Later w (record w { calls = c }) h h.sound (Grows-refl w.core.pgm) h.saved frames stack

  pop-IsStack :
      (r : ℕ) (fs : List (ℕ × Option ℤ)) (f : ℕ × Option ℤ)
      → IsStack r fs
      → top fs ≡ some f
      → (f.0 == r) ≡ false
      → IsStack r (pop fs)
  pop-IsStack r [] f h e n = absurd h
  pop-IsStack r (g ∷ []) f h e n = absurd (not_root g.0 f.0 r (top_head g [] f e) h n)
  pop-IsStack r (g ∷ k ∷ fs) f h e n = h.1

  pop-root :
      (r : ℕ) (fs : List (ℕ × Option ℤ)) (f : ℕ × Option ℤ)
      → IsStack r fs
      → top fs ≡ some f
      → (f.0 == r) ≡ true
      → pop fs ≡ []
  pop-root r [] f h e n = absurd h
  pop-root r (g ∷ []) f h e n = refl
  pop-root r (g ∷ k ∷ fs) f h e n = absurd (h.0 (same_root g.0 f.0 r (top_head g (k ∷ fs) f e) n))

  pub push-IsStack :
      (r : ℕ) (f : ℕ × Option ℤ) (fs : List (ℕ × Option ℤ))
      → f.0 ≢ r
      → IsStack r fs
      → IsStack r (f ∷ fs)
  push-IsStack r f [] n h = absurd h
  push-IsStack r f (g ∷ fs) n h = (n, h)

  pub root-below :
      (p : Pgm) (r : ℕ) (fs : List (ℕ × Option ℤ))
      → IsStack r fs
      → AreFrames p fs
      → r < gt.num_vertices p.graph
  root-below p r [] h a = absurd h
  root-below p r (f ∷ []) h a = subst (λ x. x < gt.num_vertices p.graph) h a.0.below
  root-below p r (f ∷ g ∷ fs) h a = root-below p r (g ∷ fs) h.1 a.1

  replace_root-Post :
      (v : ℕ) (c : Core) (cs : CallState) (w : Worker)
      → IsRunning w
      → Next w.core c
      → IsFrame c.pgm v
      → cs.call_stack ≡ []
      → Post (λ _ u. Later w u) (replace_root v (record w { core = c; calls = cs }))
  unfolding replace_root
  replace_root-Post v c cs w h n f e =
      let r = gt.num_vertices c.pgm.graph in
      let a = add_call_vertex-Next (call_data none) c n.sound in
      let b =
        add_call_edge-Next r v EdgeOperation.call 0 0 [] _ a.0.sound (Grows-IsFrame a.0.grows f) in
      let all = Next-trans n (Next-trans a.0 b) in
      done (
        same-Later w _ h all.sound all.grows (Next-IsHeld w.branch.saved_pcc all h.saved)
          (subst
            (λ xs.
              AreFrames
                (add_call_edge r v EdgeOperation.call 0 0 []
                  (add_call_vertex (call_data none) c)).pgm
                ((r, none) ∷ xs))
            (sym e) (Grows-IsFrame b.grows a.1, tt))
          (subst (λ xs. IsStack r ((r, none) ∷ xs)) (sym e) refl))

  pub make_return-Keeps : (entry : Entry) (regs : TraceRegs) → Keeps (make_return entry regs)
  unfolding make_return
  make_return-Keeps entry regs w h =
      let fs = w.calls.call_stack in
      Post-option (top fs) index_error w _ λ popped e.
        Post-result (as_call (w.core.pgm.data_of popped.0)) _ _ λ d e'.
          let n =
            set_data-Next w.core popped.0
              (call (record d { t_return = some entry.cycles; addr_return = some entry.pc }))
              (sym (as_call-shape (w.core.pgm.data_of popped.0) d e')) h.sound in
          let f = Grows-IsFrame n.grows (top-IsFrame w.core.pgm fs popped h.frames e) in
          let n2 =
            link_loop-Next popped.0 entry regs EdgeOperation.return 0 w.core.reg_nodes [] _ n.sound
              f in
          let all = Next-trans n n2 in
          Post-choose (popped.0 == w.calls.root) _ _
            (λ same.
              replace_root-Post popped.0 _ (record w.calls { call_stack = pop fs }) w h all
                (Grows-IsFrame n2.grows f) (pop-root w.calls.root fs popped h.stack e same))
            (λ other.
              same-Later w _ h all.sound all.grows (Next-IsHeld w.branch.saved_pcc all h.saved)
                (Grows-AreFrames (pop fs) all.grows (pop-AreFrames w.core.pgm fs h.frames))
                (pop-IsStack w.calls.root fs popped h.stack e other))
