-- ===== src/Parser/Sound/Syscall.antt =====
-- Each callback of SyscallSubparser and InitialStackAccessSubparser keeps the invariant of the
-- worker.
use cheriplot.Base.Post.{Post, done, Post-if}
use cheriplot.Graph.{GraphTool}
use cheriplot.Base.{[], ◌∷◌, List, ℕ, Option, arith, refl}
use cheriplot.Parser.Syscall.{
  enter_exception, do_scan_exception, syscall_exception, syscall_eret, stack_eret, leave_exception,
}
use cheriplot.Trace.{Instruction}
use cheriplot.Parser.Worker.{Callback, Worker}
use cheriplot.Parser.State.{Core}
use cheriplot.Parser.Sound.Running.{
  Keeps, same-Later, unless_paused-Keeps, lift-Keeps, then_, lift-Later, Later-refl, core-Later,
  Later-trans,
}
use cheriplot.Base.Errors.{M}
use cheriplot.Parser.Shape.{IsSound, Next, Grows-refl, Grows, Grows-IsNode, Grows-Derives}
use cheriplot.Base.Int.{◌+ℤ◌, pos}
use cheriplot.Parser.Sound.Steps.{Held-bind, Next-bind, copy_reg-Post}
use cheriplot.Parser.Sound.Regs.{get_reg-Post}
use cheriplot.Parser.RegisterSet.{pcc, epcc, kcc}
use cheriplot.Parser.Sound.HasReg.{peek_data-Post}
use cheriplot.Parser.Sound.SetReg.{set_reg-Post}
use cheriplot.Model.Cap.{CheriCap}
use cheriplot.Model.Manager.{Pgm}

module _ ⦃gt : GraphTool⦄ where
  enter_exception-Post :
      (time : ℕ) (s : Core) → IsSound s → Post (λ _ t. Next s t) (enter_exception time s)
  unfolding enter_exception
  enter_exception-Post time s h = Held-bind (get_reg-Post pcc s h) λ a t n _.
      Next-bind (peek_data-Post a t n.sound) λ _ t1 k1.
        Held-bind (get_reg-Post kcc t1 k1) λ b t2 n2 _.
          Next-bind (peek_data-Post b t2 n2.sound) λ _ t3 k3.
            Held-bind (get_reg-Post pcc t3 k3) λ old t4 n4 held.
              Next-bind (set_reg-Post epcc old time t4 n4.sound held)
                λ _ t5 k5. copy_reg-Post kcc pcc time t5 k5

  pub do_scan_exception-Keeps : (inst : Instruction) → Keeps (do_scan_exception inst)
  unfolding do_scan_exception
  do_scan_exception-Keeps inst w h =
      let l =
        same-Later w (record w { syscall_depth = w.syscall_depth +ℤ pos 1 }) h h.sound
          (Grows-refl w.core.pgm) h.saved h.frames h.stack in
      then_ l (
        lift-Later (enter_exception inst.entry.cycles) _ l.running
          (enter_exception-Post inst.entry.cycles w.core h.sound))

  waiting-Keeps :
      (ks : List Callback) (m n : M Worker (Unit {0}))
      → Keeps m
      → Keeps n
      → Keeps (elim ks as (λ _. M Worker (Unit {0})) [ [] ↦ m | k ∷ ks ↦ n ])
  waiting-Keeps [] m n h k = h
  waiting-Keeps (x ∷ xs) m n h k = k

  pub syscall_exception-Keeps : (inst : Instruction) → Keeps (syscall_exception inst)
  unfolding syscall_exception
  syscall_exception-Keeps inst = unless_paused-Keeps _ λ w h.
      waiting-Keeps w.exec_maybe (do_scan_exception inst) _ (do_scan_exception-Keeps inst)
        (λ v k. done (same-Later v _ k k.sound (Grows-refl v.core.pgm) k.saved k.frames k.stack)) w
        h

  pub syscall_eret-Keeps : (inst : Instruction) → Keeps (syscall_eret inst)
  unfolding syscall_eret leave_exception
  syscall_eret-Keeps inst = unless_paused-Keeps _ (
      lift-Keeps _ λ s h. Held-bind (get_reg-Post epcc s h) λ a t n _.
        Next-bind (peek_data-Post a t n.sound) λ _ t1 k1.
          Held-bind (get_reg-Post pcc t1 k1) λ b t2 n2 _.
            Next-bind (peek_data-Post b t2 n2.sound)
              λ _ t3 k3. copy_reg-Post epcc pcc inst.entry.cycles t3 k3)

  stack-Next :
      (c : Option CheriCap) (s : Core)
      → IsSound s
      → Next s (record s { pgm = record s.pgm { stack = c } })
  stack-Next c s h =
      let p : Pgm = record s.pgm { stack = c } in
      let grows : Grows s.pgm p = record {
        more = omega arith;
        kept = λ v h. refl;
        layer = λ v h. refl;
      } in
      record {
        sound = record {
          graph = record {
            initial = h.graph.initial;
            targets = h.graph.targets;
            nodes = λ v l. Grows-IsNode grows (h.graph.nodes v l);
            edges = λ e k l. Grows-Derives grows (h.graph.edges e k l);
            partials = h.graph.partials;
            roots = h.graph.roots;
          };
          regs = λ i v k. Grows-IsNode grows (h.regs i v k);
          mem = λ a v k. Grows-IsNode grows (h.mem a v k);
          keys = h.keys;
        };
        grows = grows;
      }

  pub stack_eret-Keeps : (inst : Instruction) → Keeps (stack_eret inst)
  unfolding stack_eret
  stack_eret-Keeps inst = unless_paused-Keeps _ λ w h.
      Post-if w.first_eret _ _ w (λ _. done (Later-refl h))
        λ _.
          let l = core-Later w _ h (stack-Next _ w.core h.sound) in
          done (
            Later-trans l (
              same-Later _ _ l.running l.running.sound (Grows-refl _) l.running.saved
                l.running.frames l.running.stack))
