-- ===== src/Parser/Sound/Pointer.antt =====
-- Each callback of PointerProvenanceSubparser keeps the invariant of the worker.
use cheriplot.Base.Post.{Post, done, failed, Post-if, Post-result, Post-cases, Post-when, Post-mono}
use cheriplot.Graph.{GraphTool}
use cheriplot.Parser.Hardware.{
  scan_creadhwr, scan_cwritehwr, scan_cseal, scan_cunseal, scan_cclearregs, scan_cgetnull,
  scan_cgetpcc, scan_cgetpccsetoffset,
}
use cheriplot.Parser.Clear.{scan_cclearhi, scan_cclearlo, as_mask, high_register, low_register}
use cheriplot.Trace.{
  Instruction, Value, Entry, cap_index, operand, op_n, caphw_index, is_capability,
}
use cheriplot.Parser.Derive.{scan_csetbounds, scan_candperm, scan_cfromptr, derive, cfromptr_core}
use cheriplot.Parser.Arith.{
  scan_cap_arith, scan_cmovn, scan_cmovz, conditional_move, assert_capabilities, moved,
  cap_arith_core,
}
use cheriplot.Parser.Memory.{
  mem_overwrite, handle_dereference, scan_cap_load, scan_cap_store, scan_mem_store, scan_clc,
  csc_body, scan_csc, align, stored_vertex, record_store, overwrite_at, record_dereference,
  clc_core, load_pointer, store_pointer,
}
use cheriplot.Base.{Bool, Option, ℕ, ◌≢◌, ◌||◌, false, none, not, arith, ◌&&◌, str_eq, some}
use cheriplot.Parser.Sound.Running.{
  Keeps, unless_paused-Keeps, lift-Keeps, maybe_scan-Keeps, Later-refl, Keep-bind, lift-Held,
  lift-Later, Later-IsHeld,
}
use cheriplot.Model.Vertex.{CheriNodeOrigin, partial, setbounds, andperm, fromptr}
use cheriplot.Base.Int.{ℤ, int_eq, negsuc, pos}
use cheriplot.Parser.Worker.{lift}
use cheriplot.Parser.Defer.{is_deferred, operand_value, as_register, is_nonzero}
use cheriplot.Base.Errors.{assertion}
use cheriplot.Parser.Sound.Steps.{Next-bind, check-Post}
use cheriplot.Parser.Sound.Moves.{
  cgetpcc_core-Post, clear_loop-Post, handle_cpreg_get-Post, handle_cpreg_set-Post, derive-Post,
  cap_arith_core-Post,
}
use cheriplot.Parser.Sound.Memory.{
  overwrite_at-Post, clc_core-Post, record_dereference-Post, stored_vertex-Post, record_store-Post,
}
use cheriplot.Parser.Sound.SetReg.{set_reg-Post}
use cheriplot.Parser.Sound.Regs.{IsHeld, held_some}
use cheriplot.Parser.State.{Core}
use cheriplot.Parser.Shape.{IsSound, Next}

module _ ⦃gt : GraphTool⦄ where
  pub scan_creadhwr-Keeps : (inst : Instruction) → Keeps (scan_creadhwr inst)
  unfolding scan_creadhwr
  scan_creadhwr-Keeps inst = unless_paused-Keeps _ (
      lift-Keeps _ λ s h. Post-result (operand 1 inst) s _ λ src _.
        Next-bind (check-Post (not (int_eq (caphw_index src) (negsuc 0))) assertion s h)
          λ _ t k. Post-result (operand 0 inst) t _ λ dst _. handle_cpreg_get-Post dst src inst t k)

  pub scan_cwritehwr-Keeps : (inst : Instruction) → Keeps (scan_cwritehwr inst)
  unfolding scan_cwritehwr
  scan_cwritehwr-Keeps inst = unless_paused-Keeps _ (
      lift-Keeps _ λ s h. Post-result (operand 0 inst) s _ λ hwr _.
        Next-bind (check-Post (not (int_eq (caphw_index hwr) (negsuc 0))) assertion s h)
          λ _ t k. Post-result (operand 1 inst) t _ λ src _. handle_cpreg_set-Post hwr src inst t k)

  pub scan_cseal-Keeps : (inst : Instruction) → Keeps (scan_cseal inst)
  unfolding scan_cseal
  scan_cseal-Keeps inst = unless_paused-Keeps _ λ w h. failed

  pub scan_cunseal-Keeps : (inst : Instruction) → Keeps (scan_cunseal inst)
  unfolding scan_cunseal
  scan_cunseal-Keeps inst = unless_paused-Keeps _ λ w h. failed

  pub scan_cclearregs-Keeps : (inst : Instruction) → Keeps (scan_cclearregs inst)
  unfolding scan_cclearregs
  scan_cclearregs-Keeps inst = unless_paused-Keeps _ λ w h. failed

  pub scan_cgetnull-Keeps : (inst : Instruction) → Keeps (scan_cgetnull inst)
  unfolding scan_cgetnull
  scan_cgetnull-Keeps inst = unless_paused-Keeps _ (
      lift-Keeps _ λ s h. Post-result (operand 0 inst) s _ λ dst _.
        Next-bind (check-Post (not (int_eq (cap_index dst) (negsuc 0))) assertion s h)
          λ _ t k. set_reg-Post (cap_index dst) none inst.entry.cycles t k tt)

  pub scan_cgetpcc-Keeps : (inst : Instruction) → Keeps (scan_cgetpcc inst)
  unfolding scan_cgetpcc
  scan_cgetpcc-Keeps inst = unless_paused-Keeps _ (lift-Keeps _ (cgetpcc_core-Post inst))

  pub scan_cgetpccsetoffset-Keeps : (inst : Instruction) → Keeps (scan_cgetpccsetoffset inst)
  unfolding scan_cgetpccsetoffset
  scan_cgetpccsetoffset-Keeps inst = unless_paused-Keeps _ (scan_cgetpcc-Keeps inst)

  pub scan_cclearhi-Keeps : (inst : Instruction) → Keeps (scan_cclearhi inst)
  unfolding scan_cclearhi
  scan_cclearhi-Keeps inst = unless_paused-Keeps _ (
      lift-Keeps _ λ s h. Post-result (operand_value 0 inst) s _ λ mask _.
        Post-result (as_mask mask) s _
          λ bits _. clear_loop-Post 16 0 high_register bits inst.entry.cycles s h)

  pub scan_cclearlo-Keeps : (inst : Instruction) → Keeps (scan_cclearlo inst)
  unfolding scan_cclearlo
  scan_cclearlo-Keeps inst = unless_paused-Keeps _ (
      lift-Keeps _ λ s h. Post-result (operand_value 0 inst) s _ λ mask _.
        Post-result (as_mask mask) s _
          λ bits _. clear_loop-Post 16 0 low_register bits inst.entry.cycles s h)

  derive-Keeps :
      (inst : Instruction) (origin : CheriNodeOrigin) (r : Option ℤ)
      → origin ≢ partial
      → Keeps (lift (derive inst origin r))
  derive-Keeps inst origin r n = lift-Keeps _ λ s h. derive-Post inst origin r s h n

  pub scan_csetbounds-Keeps : (inst : Instruction) (m : Bool) → Keeps (scan_csetbounds inst m)
  unfolding scan_csetbounds
  scan_csetbounds-Keeps inst m = unless_paused-Keeps _ λ w h.
      Post-if (is_deferred inst m) _ _ w (λ _. maybe_scan-Keeps _ (some inst.entry.pc) w h)
        λ _. derive-Keeps inst setbounds none (λ e. ground arith) w h

  pub scan_candperm-Keeps : (inst : Instruction) (m : Bool) → Keeps (scan_candperm inst m)
  unfolding scan_candperm
  scan_candperm-Keeps inst m = unless_paused-Keeps _ λ w h.
      Post-if (is_deferred inst m) _ _ w (λ _. maybe_scan-Keeps _ (some inst.entry.pc) w h)
        λ _. derive-Keeps inst andperm none (λ e. ground arith) w h

  cfromptr_core-Post :
      (inst : Instruction) (s : Core) → IsSound s → Post (λ _ t. Next s t) (cfromptr_core inst s)
  unfolding cfromptr_core
  cfromptr_core-Post inst s h = Post-result (operand 1 inst) s _ λ src _.
      Post-if (int_eq (cap_index src) (negsuc 0) && int_eq (caphw_index src) (pos 0)) _ _ s
        (λ _. derive-Post inst fromptr (some (pos 32)) s h (λ e. ground arith))
        (λ _. derive-Post inst fromptr none s h (λ e. ground arith))

  pub scan_cfromptr-Keeps : (inst : Instruction) (m : Bool) → Keeps (scan_cfromptr inst m)
  unfolding scan_cfromptr
  scan_cfromptr-Keeps inst m = unless_paused-Keeps _ λ w h.
      Post-if (is_deferred inst m) _ _ w (λ _. maybe_scan-Keeps _ (some inst.entry.pc) w h)
        λ _. lift-Keeps (cfromptr_core inst) (cfromptr_core-Post inst) w h

  pub scan_cap_arith-Keeps : (inst : Instruction) (m : Bool) → Keeps (scan_cap_arith inst m)
  unfolding scan_cap_arith
  scan_cap_arith-Keeps inst m = unless_paused-Keeps _ λ w h.
      Post-if (is_deferred inst m) _ _ w (λ _. maybe_scan-Keeps _ (some inst.entry.pc) w h)
        λ _.
          Post-cases (op_n 0 inst) _ _ w (λ _. done (Later-refl h))
            λ dst _.
              Post-if (is_capability dst) _ _ w
                (λ _. lift-Keeps (cap_arith_core inst dst) (cap_arith_core-Post inst dst) w h)
                (λ _. done (Later-refl h))

  conditional_move-Keeps :
      (inst : Instruction) (test : Value → Bool) → Keeps (conditional_move inst test)
  conditional_move-Keeps inst test w h = Post-result (assert_capabilities inst) w _ λ _ _.
      Post-result (moved inst test) w _
        λ yes_ _. Post-when yes_ _ w (λ _. scan_cap_arith-Keeps inst false w h) (Later-refl h)

  pub scan_cmovn-Keeps : (inst : Instruction) (m : Bool) → Keeps (scan_cmovn inst m)
  unfolding scan_cmovn
  scan_cmovn-Keeps inst m = unless_paused-Keeps _ λ w h.
      Post-if (is_deferred inst m) _ _ w (λ _. maybe_scan-Keeps _ (some inst.entry.pc) w h)
        λ _. conditional_move-Keeps inst is_nonzero w h

  pub scan_cmovz-Keeps : (inst : Instruction) (m : Bool) → Keeps (scan_cmovz inst m)
  unfolding scan_cmovz
  scan_cmovz-Keeps inst m = unless_paused-Keeps _ λ w h.
      Post-if (is_deferred inst m) _ _ w (λ _. maybe_scan-Keeps _ (some inst.entry.pc) w h)
        λ _. conditional_move-Keeps inst (λ v. not (is_nonzero v)) w h

  mem_overwrite-Keeps :
      (entry : Entry) (time addr : ℕ) (new : Option ℕ) → Keeps (mem_overwrite entry time addr new)
  unfolding mem_overwrite
  mem_overwrite-Keeps entry time addr new = unless_paused-Keeps _ λ w h.
      lift-Keeps (overwrite_at entry time (align w.capability_size addr) new)
        (overwrite_at-Post entry time (align w.capability_size addr) new) w h

  pub handle_dereference-Keeps :
      (inst : Instruction) (r : ℤ) (m : Bool) → Keeps (handle_dereference inst r m)
  unfolding handle_dereference
  handle_dereference-Keeps inst r m w h =
      Post-if (is_deferred inst m) _ _ w
        (λ _.
          Post-if (inst.entry.is_load || inst.entry.is_store) _ _ w
            (λ _. maybe_scan-Keeps _ (some inst.entry.memory_address) w h)
            (λ _. done (Later-refl h)))
        (λ _. lift-Keeps (record_dereference inst r) (record_dereference-Post inst r) w h)

  pub scan_cap_load-Keeps : (inst : Instruction) → Keeps (scan_cap_load inst)
  unfolding scan_cap_load
  scan_cap_load-Keeps inst = unless_paused-Keeps _ λ w h.
      Post-result (load_pointer inst) w _
        λ ptr _. handle_dereference-Keeps inst (cap_index ptr) false w h

  pub scan_cap_store-Keeps : (inst : Instruction) → Keeps (scan_cap_store inst)
  unfolding scan_cap_store
  scan_cap_store-Keeps inst = unless_paused-Keeps _ λ w h.
      Post-result (store_pointer inst) w _
        λ ptr _. handle_dereference-Keeps inst (cap_index ptr) false w h

  pub scan_mem_store-Keeps : (inst : Instruction) (m : Bool) → Keeps (scan_mem_store inst m)
  unfolding scan_mem_store
  scan_mem_store-Keeps inst m = unless_paused-Keeps _ λ w h.
      Post-if (is_deferred inst m) _ _ w (λ _. maybe_scan-Keeps _ (some inst.entry.pc) w h)
        λ _.
          Post-when (not (str_eq inst.opcode "csc")) _ w
            (λ _.
              mem_overwrite-Keeps inst.entry inst.entry.cycles inst.entry.memory_address none w h)
            (Later-refl h)

  pub scan_clc-Keeps : (inst : Instruction) (m : Bool) → Keeps (scan_clc inst m)
  unfolding scan_clc
  scan_clc-Keeps inst m = unless_paused-Keeps _ λ w h.
      Post-if (is_deferred inst m) _ _ w
        (λ _.
          Post-if inst.entry.is_load _ _ w
            (λ _. maybe_scan-Keeps _ (some inst.entry.memory_address) w h)
            (λ _. done (Later-refl h)))
        (λ _. lift-Keeps (clc_core inst) (clc_core-Post inst) w h)

  csc_body-Keeps : (inst : Instruction) → Keeps (csc_body inst)
  unfolding csc_body
  csc_body-Keeps inst w h = Post-result (operand 0 inst) w _ λ dst _.
      Post-result (operand_value 0 inst) w _ λ v _. Post-result (as_register v) w _ λ r _.
        Post-when r.valid _ w
          (λ _.
            Keep-bind {P = λ u v. IsHeld v.core u}
              (lift-Held {P = λ u t. IsHeld t u} (stored_vertex inst (cap_index dst) v) w h
                (stored_vertex-Post inst (cap_index dst) v w.core h.sound))
              λ u v1 l held.
                Keep-bind {P = λ _ v. IsHeld v.core u}
                  (Post-mono
                    (mem_overwrite-Keeps inst.entry inst.entry.cycles inst.entry.memory_address u v1
                      l.running)
                    λ _ v2 l2. (l2, Later-IsHeld u l2 held))
                  λ _ v2 l2 held2.
                    Post-cases u _ _ v2 (λ _. failed)
                      λ n e. lift-Later (record_store inst n) v2 l2.running (
                        record_store-Post inst n v2.core l2.running.sound
                          (held_some v2.core u n held2 e)))
          (Later-refl h)

  pub scan_csc-Keeps : (inst : Instruction) (m : Bool) → Keeps (scan_csc inst m)
  unfolding scan_csc
  scan_csc-Keeps inst m = unless_paused-Keeps _ λ w h.
      Post-if (is_deferred inst m) _ _ w
        (λ _.
          Post-if inst.entry.is_store _ _ w
            (λ _. maybe_scan-Keeps _ (some inst.entry.memory_address) w h)
            (λ _. done (Later-refl h)))
        (λ _. csc_body-Keeps inst w h)
