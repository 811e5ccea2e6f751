-- ===== src/Parser/Sound/Calls.antt =====
-- Each callback of CallgraphSubparser keeps the invariant of the worker.
use cheriplot.Base.Post.{
  Post, done, failed, Post-result, Post-option, Post-if, Post-cases, Post-when, Post-mono,
}
use cheriplot.Graph.{GraphTool}
use cheriplot.Parser.Frames.{
  make_call, make_call_return, unwind, make_syscall_return, top, callee_data, parent_edge,
  is_syscall,
}
use cheriplot.Parser.Calls.{
  do_call_cjalr, do_call_cjr, do_call_jalr, do_call_jr, call_cjalr, call_cjr, call_jalr, call_jr,
  call_delay_slot, call_exception, call_syscall, scan_addiu, epcc_unknown, call_eret, opt_int_eq,
  as_addr, get_syscall_code, cursor, as_number, leave_syscall,
}
use cheriplot.Trace.{Entry, Instruction, TraceRegs, operand, has_exception, cap_index, gpr_index}
use cheriplot.Parser.Worker.{Callback, Worker}
use cheriplot.Base.{Option, List, ℕ, true, ◌∷◌, ◌==◌, not, ◌&&◌, some, false, none, [], sym, arith}
use cheriplot.Parser.Sound.Running.{
  Keeps, unless_paused-Keeps, Later-bind, Later-refl, lift-Later, then_, core-Later, same-Later,
  Grows-IsFrame, Later-trans,
}
use cheriplot.Base.Errors.{M, index_error, assertion, unexpected_operation}
use cheriplot.Parser.State.{Core, as_call, as_prov}
use cheriplot.Base.Int.{ℤ, ◌-ℤ◌, pos, int_eq, ltb_ℤ}
use cheriplot.Parser.Shape.{IsSound, Next, Grows-refl}
use cheriplot.Model.Manager.{EdgeOperation, call}
use cheriplot.Parser.Defer.{operand_value, as_register}
use cheriplot.Parser.Sound.Frames.{
  put_calls-Later, add_call_vertex-Next, make_return-Keeps, add_call_edge-Next, link_loop-Next,
  as_call-shape, root-below, push-IsStack,
}
use cheriplot.Parser.Sound.Steps.{Held-bind, pure-Post}
use cheriplot.Parser.Sound.Regs.{get_reg-Post}
use cheriplot.Parser.RegisterSet.{get_reg, epcc}
use cheriplot.Model.Vertex.{is_partial}
use cheriplot.Parser.Sound.Graph.{set_data-Next}

module _ ⦃gt : GraphTool⦄ where
  make_call-Keeps :
      (entry : Entry) (regs : TraceRegs) (callee link : Option ℤ) (op : EdgeOperation)
      → Keeps (make_call entry regs callee link op)
  unfolding make_call
  make_call-Keeps entry regs callee link op w h =
      let v = gt.num_vertices w.core.pgm.graph in
      let l = put_calls-Later (record w.calls { landing_addr = callee }) w h h.frames h.stack in
      let below = root-below w.core.pgm w.calls.root w.calls.call_stack h.stack h.frames in
      let a = add_call_vertex-Next (callee_data regs callee) w.core h.sound in
      let l1 = core-Later _ _ l.running a.0 in
      then_ l (
        then_ l1 (
          Post-option (top w.calls.call_stack) assertion _ _ λ parent e.
            let b = add_call_edge-Next parent.0 v op entry.cycles entry.pc [] _ a.0.sound a.1 in
            let f = Grows-IsFrame b.grows a.1 in
            let l2 = core-Later _ _ l1.running b in
            let l3 =
              put_calls-Later
                (record w.calls {
                  landing_addr = callee;
                  call_stack = (v, link) ∷ w.calls.call_stack;
                })
                _ l2.running (f, l2.running.frames)
                (push-IsStack w.calls.root (v, link) w.calls.call_stack
                  (λ q. omega (arith, below, q)) h.stack) in
            let n =
              link_loop-Next v entry regs EdgeOperation.visible 0 w.core.reg_nodes [] _ b.sound f in
            done (Later-trans l2 (Later-trans l3 (core-Later _ _ l3.running n)))))

  make_call_return-Keeps :
      (entry : Entry) (addr : Option ℤ) (regs : TraceRegs)
      → Keeps (make_call_return entry addr regs)
  unfolding make_call_return
  make_call_return-Keeps entry addr regs w h =
      Post-option (top w.calls.call_stack) index_error w _ λ frame _.
        Post-cases frame.1 _ _ w
          (λ _.
            Post-if w.calls.in_syscall _ _ w (λ _. done (Later-refl h))
              λ _. make_return-Keeps entry regs w h)
          (λ ret_addr _.
            Post-cases addr _ _ w (λ _. failed)
              λ a _.
                Post-if (int_eq ret_addr a) _ _ w (λ _. make_return-Keeps entry regs w h)
                  λ _. done (Later-refl h))

  unwind-Keeps :
      (entry : Entry) (regs : TraceRegs) (fs : List (ℕ × Option ℤ)) → Keeps (unwind entry regs fs)
  unfolding unwind
  unwind-Keeps entry regs [] w h = failed
  unwind-Keeps entry regs (f ∷ fs) w h =
      Post-if (f.0 == w.calls.root) _ _ w (λ _. make_return-Keeps entry regs w h)
        λ _.
          Post-option (parent_edge f.0 (gt.all_edges w.core.pgm.graph f.0) w.core)
            unexpected_operation w _
            λ op _. Later-bind (make_return-Keeps entry regs w h) λ _ v k.
              Post-if (is_syscall op) _ _ v (λ _. done (Later-refl k))
                λ _. unwind-Keeps entry regs fs v k

  make_syscall_return-Keeps :
      (entry : Entry) (regs : TraceRegs) → Keeps (make_syscall_return entry regs)
  unfolding make_syscall_return
  make_syscall_return-Keeps entry regs w h = unwind-Keeps entry regs w.calls.call_stack w h

  pub do_call_cjalr-Keeps : (inst : Instruction) → Keeps (do_call_cjalr inst)
  unfolding do_call_cjalr
  do_call_cjalr-Keeps inst w h = Post-result (operand 1 inst) w _ λ target _.
      Later-bind
        (lift-Later (get_reg (cap_index target)) w h
          (Post-mono (get_reg-Post (cap_index target) w.core h.sound) λ v t k. k.0))
        λ _ w1 h1. Post-result (operand_value 1 inst) w1 _ λ a _.
          Post-result (operand_value 0 inst) w1 _ λ b _.
            Post-result (as_register a) w1 _ λ target_cap _.
              Post-result (as_register b) w1 _ λ link_cap _.
                Post-when (not (has_exception inst)) _ w1
                  (λ _.
                    make_call-Keeps inst.entry inst.regset (cursor target_cap) (cursor link_cap)
                      EdgeOperation.call w1 h1)
                  (Later-refl h1)

  pub do_call_cjr-Keeps : (inst : Instruction) → Keeps (do_call_cjr inst)
  unfolding do_call_cjr
  do_call_cjr-Keeps inst w h = Post-result (operand_value 0 inst) w _ λ v _.
      Post-result (as_register v) w _ λ r _. Post-result (operand 0 inst) w _ λ src _.
        Post-when (not (has_exception inst) && int_eq (cap_index src) (pos 17)) _ w
          (λ _. make_call_return-Keeps inst.entry (cursor r) inst.regset w h) (Later-refl h)

  pub do_call_jalr-Keeps : (inst : Instruction) → Keeps (do_call_jalr inst)
  unfolding do_call_jalr
  do_call_jalr-Keeps inst w h = Post-result (operand_value 1 inst) w _ λ a _.
      Post-result (operand_value 0 inst) w _ λ b _.
        Post-when (not (has_exception inst)) _ w
          (λ _. Post-result (as_addr a) w _ λ target _.
            Post-result (as_addr b) w _
              λ link _. make_call-Keeps inst.entry inst.regset target link EdgeOperation.call w h)
          (Later-refl h)

  pub do_call_jr-Keeps : (inst : Instruction) → Keeps (do_call_jr inst)
  unfolding do_call_jr
  do_call_jr-Keeps inst w h = Post-result (operand_value 0 inst) w _ λ v _.
      Post-when (not (has_exception inst)) _ w
        (λ _.
          Post-result (as_addr v) w _
            λ addr _. make_call_return-Keeps inst.entry addr inst.regset w h)
        (Later-refl h)

  pub call_cjalr-Keeps : (inst : Instruction) → Keeps (call_cjalr inst)
  unfolding call_cjalr
  call_cjalr-Keeps inst = unless_paused-Keeps _ λ w h.
      Post-if (has_exception inst) _ _ w (λ _. do_call_cjalr-Keeps inst w h)
        λ _. done (put_calls-Later _ w h h.frames h.stack)

  pub call_cjr-Keeps : (inst : Instruction) → Keeps (call_cjr inst)
  unfolding call_cjr
  call_cjr-Keeps inst = unless_paused-Keeps _ λ w h.
      Post-if (has_exception inst) _ _ w (λ _. do_call_cjr-Keeps inst w h)
        λ _. done (put_calls-Later _ w h h.frames h.stack)

  pub call_jalr-Keeps : (inst : Instruction) → Keeps (call_jalr inst)
  unfolding call_jalr
  call_jalr-Keeps inst = unless_paused-Keeps _ λ w h.
      Post-if (has_exception inst) _ _ w (λ _. do_call_jalr-Keeps inst w h)
        λ _. done (put_calls-Later _ w h h.frames h.stack)

  pub call_jr-Keeps : (inst : Instruction) → Keeps (call_jr inst)
  unfolding call_jr
  call_jr-Keeps inst = unless_paused-Keeps _ λ w h.
      Post-if (has_exception inst) _ _ w (λ _. do_call_jr-Keeps inst w h)
        λ _. done (put_calls-Later _ w h h.frames h.stack)

  pub call_delay_slot-Keeps :
      (run : Callback → M Worker (Unit {0}))
      → ((k : Callback) → Keeps (run k))
      → (inst : Instruction) → Keeps (call_delay_slot run inst)
  unfolding call_delay_slot
  call_delay_slot-Keeps run keeps inst = unless_paused-Keeps _ λ w h.
      Post-cases w.calls.call_cbk _ _ w (λ _. done (Later-refl h))
        λ k _.
          Later-bind
            (Post-if (has_exception inst && not (inst.entry.exception == 0)) _ _ w
              (λ _.
                done (same-Later w _ h h.sound (Grows-refl w.core.pgm) h.saved h.frames h.stack))
              (λ _. keeps k w h))
            λ _ w1 h1. done (put_calls-Later _ w1 h1 h1.frames h1.stack)

  pub call_exception-Keeps : (inst : Instruction) → Keeps (call_exception inst)
  unfolding call_exception
  call_exception-Keeps inst =
      unless_paused-Keeps _ λ w h. done (put_calls-Later _ w h h.frames h.stack)

  pub call_syscall-Keeps : (inst : Instruction) → Keeps (call_syscall inst)
  unfolding call_syscall
  call_syscall-Keeps inst = unless_paused-Keeps _ λ w h.
      let l = put_calls-Later (record w.calls { in_syscall = true }) w h h.frames h.stack in
      then_ l (
        make_call-Keeps inst.entry inst.regset (some (pos (get_syscall_code inst.regset))) none
          EdgeOperation.syscall _ l.running)

  pub scan_addiu-Keeps : (inst : Instruction) → Keeps (scan_addiu inst)
  unfolding scan_addiu
  scan_addiu-Keeps inst = unless_paused-Keeps _ λ w h.
      Post-if (opt_int_eq (some (pos inst.entry.pc)) w.calls.landing_addr) _ _ w
        (λ _. Post-result (operand 0 inst) w _ λ dst _.
          Post-when (int_eq (gpr_index dst) (pos 29)) _ w
            (λ _. Post-option (top w.calls.call_stack) index_error w _ λ frame _.
              Post-result (as_call (w.core.pgm.data_of frame.0)) w _ λ d e.
                Post-result (operand_value 2 inst) w _ λ v _. Post-result (as_number v) w _ λ n _.
                  done (
                    core-Later w _ h (
                      set_data-Next w.core frame.0 (call _)
                        (sym (as_call-shape (w.core.pgm.data_of frame.0) d e)) h.sound)))
            (Later-refl h))
        (λ _. done (Later-refl h))

  epcc_unknown-Post :
      (inst : Instruction) (s : Core) → IsSound s → Post (λ _ t. Next s t) (epcc_unknown inst s)
  unfolding epcc_unknown
  epcc_unknown-Post inst s h = Held-bind (get_reg-Post epcc s h) λ old t n _.
      Post-if (inst.regset.valid_hwcaps 31) _ _ t (λ _. pure-Post false t n.sound)
        λ _.
          Post-cases old _ _ t (λ _. pure-Post true t n.sound)
            λ v _.
              Post-result (as_prov (t.pgm.data_of v)) t _
                λ d _. pure-Post (is_partial d.origin) t n.sound

  leave_syscall-Keeps : (inst : Instruction) → Keeps (leave_syscall inst)
  unfolding leave_syscall
  leave_syscall-Keeps inst w h =
      let c = w.calls in
      Post-if (c.in_syscall && (int_eq c.exception_depth (pos 0) && not (has_exception inst))) _ _ w
        (λ _.
          Later-bind (lift-Later (epcc_unknown inst) w h (epcc_unknown-Post inst w.core h.sound))
            λ unknown v k.
              Post-if unknown _ _ v (λ _. failed)
                λ _.
                  let l =
                    put_calls-Later (record v.calls { in_syscall = false }) v k k.frames k.stack in
                  then_ l (make_syscall_return-Keeps inst.entry inst.regset _ l.running))
        (λ _.
          Post-when (ltb_ℤ c.exception_depth (pos 0)) _ w
            (λ _. done (put_calls-Later _ w h h.frames h.stack)) (Later-refl h))

  pub call_eret-Keeps : (inst : Instruction) → Keeps (call_eret inst)
  unfolding call_eret
  call_eret-Keeps inst = unless_paused-Keeps _ λ w h.
      let l =
        put_calls-Later (record w.calls { exception_depth = w.calls.exception_depth -ℤ pos 1 }) w h
          h.frames h.stack in
      then_ l (leave_syscall-Keeps inst _ l.running)
