-- ===== src/Parser/Sound/Branch.antt =====
-- Each callback of CapabilityBranchSubparser, SyscallSubparser and InitialStackAccessSubparser keeps
-- the invariant of the worker.
use cheriplot.Base.Post.{
  Post, done, failed, Post-mono, Post-result, Post-cases, Post-if, Post-when, Post-bind,
  Post-option, Post-check,
}
use cheriplot.Graph.{GraphTool}
use cheriplot.Base.{
  length, Option, ℕ, List, not, ◌&&◌, ◌==◌, true, false, ◌||◌, ◌+◌, some, none, refl,
}
use cheriplot.Parser.Worker.{BranchState, Worker, Callback}
use cheriplot.Parser.Branch.{
  restore_epcc, branch_dmfc0, branch_eret, save_branch_state, jump_to, do_branch_cjr, link_vertex,
  do_branch_cjalr, branch_cjr, branch_cjalr, branch_delay_slot, branch_ccall, branch_creturn,
  is_addr,
}
use cheriplot.Parser.Sound.Running.{
  IsRunning, Later, Keeps, same-Later, unless_paused-Keeps, Keep-bind, lift-Held, Later-bind,
  Later-refl, lift-Later, Later-IsHeld, then_,
}
use cheriplot.Base.Errors.{M, attribute_error, type_error, assertion}
use cheriplot.Trace.{
  Instruction, Entry, Operand, value, operand, has_exception, gpr_index, cap_index,
}
use cheriplot.Parser.Sound.Regs.{IsHeld, get_reg-Post, prov_data-Post}
use cheriplot.Parser.State.{Core, prov_data_at, as_cap}
use cheriplot.Parser.Shape.{IsSound, Grows-refl, Next, Next-trans, IsNode, Grows-IsNode}
use cheriplot.Parser.Sound.Steps.{Held-bind}
use cheriplot.Parser.RegisterSet.{get_reg, pcc, epcc, has_reg, set_reg}
use cheriplot.Parser.Defer.{operand_value}
use cheriplot.Base.Int.{int_eq, pos, negsuc}
use cheriplot.Parser.Sound.HasReg.{has_reg-Post, prov_data_at-Post}
use cheriplot.Parser.Sound.SetReg.{set_reg-Post, put_cap-Post}
use cheriplot.Parser.Sound.Nodes.{make_root_node-Post}
use cheriplot.Model.Cap.{has_perm, perm_exec}

module _ ⦃gt : GraphTool⦄ where
  -- The saved vertex of pcc is set where a branch is saved.
  put_branch-Later :
      (b : BranchState) (w : Worker)
      → IsRunning w
      → IsHeld w.core b.saved_pcc
      → Later w (record w { branch = b })
  put_branch-Later b w h held =
      same-Later w (record w { branch = b }) h h.sound (Grows-refl w.core.pgm) held h.frames h.stack

  restore_epcc-Post :
      (saved : Option ℕ) (ns : Option (List ℕ)) (time : ℕ) (s : Core)
      → IsSound s
      → IsHeld s saved
      → Post (λ _ t. Next s t) (restore_epcc saved ns time s)
  unfolding restore_epcc
  restore_epcc-Post none ns time s h held = Held-bind (get_reg-Post epcc s h) λ old t n _.
      Post-option old attribute_error t _ λ v _. Post-option ns type_error t _ λ ms _.
        Post-check (length (gt.out_neighbours t.pgm.graph v) == length ms) assertion t _ λ _. failed
  restore_epcc-Post (some u) ns time s h held = Held-bind (get_reg-Post epcc s h) λ old t n _.
      Post-option old attribute_error t _ λ v _. Post-option ns type_error t _ λ ms _.
        Post-check (length (gt.out_neighbours t.pgm.graph v) == length ms) assertion t _ λ _.
          Held-bind (prov_data-Post u t n.sound) λ d t2 n2 e.
            let held2 = Grows-IsNode (Next-trans n n2).grows held in
            Held-bind {P = λ _ t3. IsNode t3.pgm u}
              (Post-mono
                (put_cap-Post u d (λ c. record c { t_free = negsuc 0 }) t2 n2.sound e λ c. refl)
                λ _ t3 n3. (n3, Grows-IsNode n3.grows held2))
              λ _ t3 n3 held3. set_reg-Post epcc (some u) time t3 n3.sound held3

  pub branch_dmfc0-Keeps : (inst : Instruction) → Keeps (branch_dmfc0 inst)
  unfolding branch_dmfc0
  branch_dmfc0-Keeps inst = unless_paused-Keeps _ λ w h.
      Post-cases w.branch.saved_addr _ _ w
        (λ _.
          Post-if (not w.branch.save_first_mfc) _ _ w (λ _. done (Later-refl h))
            λ _. Post-result (operand 1 inst) w _ λ src _.
              Post-when (int_eq (gpr_index src) (pos 8)) _ w
                (λ _. Post-result (operand_value 0 inst) w _ λ badvaddr _.
                  Later-bind
                    (lift-Later (get_reg epcc) w h
                      (Post-mono (get_reg-Post epcc w.core h.sound) λ v t k. k.0))
                    λ v w1 h1. done (put_branch-Later _ w1 h1 h1.saved))
                (Later-refl h))
        (λ addr _.
          let l = put_branch-Later (record w.branch { save_first_mfc = false }) w h h.saved in
          then_ l (
            Post-result (operand 1 inst) _ _ λ src _.
              Later-bind
                (Post-when (int_eq (gpr_index src) (pos 8)) _ _
                  (λ _. Post-result (operand_value 0 inst) _ _ λ badvaddr _.
                    Post-when (is_addr badvaddr addr || is_addr badvaddr (addr + 4)) _ _
                      (λ _.
                        lift-Later
                          (restore_epcc w.branch.saved_pcc w.branch.saved_epcc_out_neighbours
                            inst.entry.cycles)
                          _ l.running
                          (restore_epcc-Post w.branch.saved_pcc w.branch.saved_epcc_out_neighbours
                            inst.entry.cycles w.core h.sound h.saved))
                      (Later-refl l.running))
                  (Later-refl l.running))
                λ _ w1 h1. done (put_branch-Later _ w1 h1 h1.saved)))

  pub branch_eret-Keeps : (inst : Instruction) → Keeps (branch_eret inst)
  unfolding branch_eret
  branch_eret-Keeps inst = unless_paused-Keeps _ λ w h. done (put_branch-Later _ w h h.saved)

  save_branch_state-Later :
      (entry : Entry) (target : Option ℕ) (w : Worker)
      → IsRunning w
      → Post (λ _ v. Later w v) (save_branch_state entry target w)
  unfolding save_branch_state
  save_branch_state-Later entry target w h =
      Keep-bind {P = λ u v. IsHeld v.core u}
        (lift-Held (get_reg pcc) w h (get_reg-Post pcc w.core h.sound))
        λ v w1 l held.
          Post-option target attribute_error w1 _ λ u _. done (put_branch-Later _ w1 l.running held)

  jump_to-Keeps : (inst : Instruction) (op : Operand) → Keeps (jump_to inst op)
  unfolding jump_to
  jump_to-Keeps inst op w h =
      let time = inst.entry.cycles in
      Post-result (value inst op) w _ λ expected _.
        Later-bind
          (lift-Later (has_reg (cap_index op) expected time false) w h
            (has_reg-Post (cap_index op) expected time false w.core h.sound))
          λ known w1 h1.
            Post-if (not known) _ _ w1 (λ _. failed)
              λ _.
                Keep-bind {P = λ u v. IsHeld v.core u}
                  (lift-Held (get_reg (cap_index op)) w1 h1
                    (get_reg-Post (cap_index op) w1.core h1.sound))
                  λ new w2 l2 held2.
                    Keep-bind {P = λ _ v. IsHeld v.core new}
                      (Post-mono
                        (Post-when (has_exception inst) _ w2
                          (λ _. save_branch_state-Later inst.entry new w2 l2.running)
                          (Later-refl l2.running))
                        λ _ w3 l3. (l3, Later-IsHeld new l3 held2))
                      λ _ w3 l3 held3.
                        Later-bind
                          (lift-Later (set_reg pcc new time) w3 l3.running
                            (set_reg-Post pcc new time w3.core l3.running.sound held3))
                          λ _ w4 h4.
                            Later-bind
                              (lift-Later (get_reg pcc) w4 h4
                                (Post-mono (get_reg-Post pcc w4.core h4.sound) λ v t k. k.0))
                              λ now w5 h5.
                                Later-bind
                                  (lift-Later (prov_data_at now) w5 h5
                                    (prov_data_at-Post now w5.core h5.sound))
                                  λ d w6 h6. Post-result (as_cap d.cap) w6 _ λ c _.
                                    Post-result (has_perm c perm_exec) w6 _ λ exec _.
                                      Post-if exec _ _ w6 (λ _. done (Later-refl h6)) (λ _. failed)

  pub do_branch_cjr-Keeps : (inst : Instruction) → Keeps (do_branch_cjr inst)
  unfolding do_branch_cjr
  do_branch_cjr-Keeps inst w h = Post-result (operand 0 inst) w _ λ op _. jump_to-Keeps inst op w h

  link_vertex-Post :
      (inst : Instruction) (s : Core)
      → IsSound s
      → Post (λ u t. Next s t × IsHeld t u) (link_vertex inst s)
  unfolding link_vertex
  link_vertex-Post inst s h = Post-result (operand_value 0 inst) s _ λ v _.
      Post-bind (has_reg-Post pcc v inst.entry.cycles true s h) λ known t n.
        Post-if known _ _ t
          (λ _. Post-mono (get_reg-Post pcc t n.sound) λ u t1 k. (Next-trans n k.0, k.1))
          (λ _.
            Post-bind (make_root_node-Post inst.entry v inst.entry.cycles t n.sound)
              λ u t1 k. done (Next-trans n k.0, k.1))

  pub do_branch_cjalr-Keeps : (inst : Instruction) → Keeps (do_branch_cjalr inst)
  unfolding do_branch_cjalr
  do_branch_cjalr-Keeps inst w h = Post-result (operand 0 inst) w _ λ link _.
      Keep-bind {P = λ u v. IsHeld v.core u}
        (lift-Held (link_vertex inst) w h (link_vertex-Post inst w.core h.sound))
        λ u w1 l1 held.
          Later-bind
            (lift-Later (set_reg (cap_index link) u inst.entry.cycles) w1 l1.running
              (set_reg-Post (cap_index link) u inst.entry.cycles w1.core l1.running.sound held))
            λ _ w2 h2. Post-result (operand 1 inst) w2 _ λ target _. jump_to-Keeps inst target w2 h2

  pub branch_cjr-Keeps : (inst : Instruction) → Keeps (branch_cjr inst)
  unfolding branch_cjr
  branch_cjr-Keeps inst = unless_paused-Keeps _ λ w h.
      Post-if (has_exception inst) _ _ w (λ _. do_branch_cjr-Keeps inst w h)
        (λ _. done (put_branch-Later _ w h h.saved))

  pub branch_cjalr-Keeps : (inst : Instruction) → Keeps (branch_cjalr inst)
  unfolding branch_cjalr
  branch_cjalr-Keeps inst = unless_paused-Keeps _ λ w h.
      Post-if (has_exception inst) _ _ w (λ _. do_branch_cjalr-Keeps inst w h)
        (λ _. done (put_branch-Later _ w h h.saved))

  pub branch_delay_slot-Keeps :
      (run : Callback → M Worker (Unit {0}))
      → ((k : Callback) → Keeps (run k))
      → (inst : Instruction) → Keeps (branch_delay_slot run inst)
  unfolding branch_delay_slot
  branch_delay_slot-Keeps run keeps inst = unless_paused-Keeps _ λ w h.
      Post-cases w.branch.branch_cbk _ _ w (λ _. done (Later-refl h))
        λ k _.
          Later-bind
            (Post-if (has_exception inst && not (inst.entry.exception == 0)) _ _ w
              (λ _.
                done (same-Later w _ h h.sound (Grows-refl w.core.pgm) h.saved h.frames h.stack))
              (λ _. keeps k w h))
            λ _ w1 h1. done (put_branch-Later _ w1 h1 h1.saved)

  pub branch_ccall-Keeps : (inst : Instruction) → Keeps (branch_ccall inst)
  unfolding branch_ccall
  branch_ccall-Keeps inst w h = failed

  pub branch_creturn-Keeps : (inst : Instruction) → Keeps (branch_creturn inst)
  unfolding branch_creturn
  branch_creturn-Keeps inst w h = failed
