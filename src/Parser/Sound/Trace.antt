-- ===== src/Parser/Sound/Trace.antt =====
-- The deferred callbacks, the dispatch and the scan of a trace keep the invariant of the worker.
use cheriplot.Base.Post.{done, Post-result, Post-if, Post-check, Post-when}
use cheriplot.Base.{
  [], ◌∷◌, List, Bool, String, ◌++◌, if◌then◌else◌, true, str_eq, false, ◌&&◌, not, length,
}
use cheriplot.Graph.{GraphTool}
use cheriplot.Parser.Deferred.{
  run_callback, run_all, run_maybe, prov_dmfc0, drop_callbacks, is_empty, addr_mem,
}
use cheriplot.Parser.Dispatch.{
  named_callbacks, get_callbacks, scan_entry, scan_trace, Scan, class_callbacks, opcode_callbacks,
  named, one_of, run_scans, cap_arith_opcodes, cap_load_opcodes, cap_store_opcodes,
}
use cheriplot.Parser.Worker.{Callback}
use cheriplot.Parser.Sound.Running.{
  Keeps, Later-refl, Later-bind, unless_paused-Keeps, same-Later, then_,
}
use cheriplot.Trace.{Instruction, operand, in_delay_slot, gpr_index, has_exception}
use cheriplot.Parser.Sound.Pointer.{
  scan_creadhwr-Keeps, scan_csetbounds-Keeps, scan_cwritehwr-Keeps, scan_cseal-Keeps,
  scan_mem_store-Keeps, scan_cfromptr-Keeps, scan_cunseal-Keeps, scan_cap_arith-Keeps,
  scan_candperm-Keeps, scan_cclearregs-Keeps, scan_cmovn-Keeps, scan_cclearhi-Keeps,
  scan_cap_load-Keeps, scan_clc-Keeps, scan_cclearlo-Keeps, scan_csc-Keeps, scan_cgetnull-Keeps,
  scan_cap_store-Keeps, handle_dereference-Keeps, scan_cgetpcc-Keeps, scan_cgetpccsetoffset-Keeps,
  scan_cmovz-Keeps,
}
use cheriplot.Base.Int.{int_eq, pos}
use cheriplot.Parser.Sound.Branch.{
  branch_delay_slot-Keeps, do_branch_cjr-Keeps, do_branch_cjalr-Keeps, branch_dmfc0-Keeps,
  branch_eret-Keeps, branch_ccall-Keeps, branch_creturn-Keeps, branch_cjalr-Keeps, branch_cjr-Keeps,
}
use cheriplot.Parser.Sound.Calls.{
  call_delay_slot-Keeps, call_exception-Keeps, do_call_cjr-Keeps, do_call_cjalr-Keeps,
  do_call_jr-Keeps, do_call_jalr-Keeps, call_eret-Keeps, call_cjalr-Keeps, call_cjr-Keeps,
  call_jalr-Keeps, call_jr-Keeps, scan_addiu-Keeps, call_syscall-Keeps,
}
use cheriplot.Parser.Sound.Syscall.{
  syscall_exception-Keeps, do_scan_exception-Keeps, stack_eret-Keeps, syscall_eret-Keeps,
}
use cheriplot.Base.Errors.{assertion}
use cheriplot.Parser.Defer.{operand_value}
use cheriplot.Parser.Shape.{Grows-refl}

-- A pair, without parentheses where several follow one another.
infixr 4 ◌&◌
◌&◌ : {A B : Type 0} → A → B → A × B
a & b = (a, b)

module _ ⦃gt : GraphTool⦄ where
  run_callback-Keeps : (k : Callback) → Keeps (run_callback k)
  unfolding run_callback
  run_callback-Keeps (Callback.csetbounds i) = scan_csetbounds-Keeps i true
  run_callback-Keeps (Callback.cfromptr i) = scan_cfromptr-Keeps i true
  run_callback-Keeps (Callback.candperm i) = scan_candperm-Keeps i true
  run_callback-Keeps (Callback.cmovn i) = scan_cmovn-Keeps i true
  run_callback-Keeps (Callback.cap_arith i) = scan_cap_arith-Keeps i true
  run_callback-Keeps (Callback.mem_store i) = scan_mem_store-Keeps i true
  run_callback-Keeps (Callback.clc i) = scan_clc-Keeps i true
  run_callback-Keeps (Callback.csc i) = scan_csc-Keeps i true
  run_callback-Keeps (Callback.dereference i r) = handle_dereference-Keeps i r true
  run_callback-Keeps (Callback.exception i) = do_scan_exception-Keeps i
  run_callback-Keeps (Callback.branch_cjr i) = do_branch_cjr-Keeps i
  run_callback-Keeps (Callback.branch_cjalr i) = do_branch_cjalr-Keeps i
  run_callback-Keeps (Callback.call_cjr i) = do_call_cjr-Keeps i
  run_callback-Keeps (Callback.call_cjalr i) = do_call_cjalr-Keeps i
  run_callback-Keeps (Callback.call_jr i) = do_call_jr-Keeps i
  run_callback-Keeps (Callback.call_jalr i) = do_call_jalr-Keeps i

  run_all-Keeps : (ks : List Callback) → Keeps (run_all ks)
  unfolding run_all
  run_all-Keeps [] w h = done (Later-refl h)
  run_all-Keeps (k ∷ ks) w h = Later-bind (run_callback-Keeps k w h) λ _ v h1. run_all-Keeps ks v h1

  run_maybe-Keeps : Keeps run_maybe
  unfolding run_maybe
  run_maybe-Keeps w h =
      Later-bind (run_all-Keeps w.exec_maybe w h)
        λ _ v h1. run_all-Keeps (drop_callbacks (length w.exec_maybe) v.exec_maybe) v h1

  prov_dmfc0-Keeps : (inst : Instruction) → Keeps (prov_dmfc0 inst)
  unfolding prov_dmfc0
  prov_dmfc0-Keeps inst = unless_paused-Keeps _ λ w h. Post-result (operand 1 inst) w _ λ src _.
      Post-if (int_eq (gpr_index src) (pos 8) && not (is_empty w.exec_maybe)) _ _ w
        (λ _. Post-check (not (is_empty w.exec_maybe_addr)) assertion w _ λ _.
          Post-result (operand_value 0 inst) w _ λ badvaddr _.
            Later-bind
              (Post-when (not (addr_mem badvaddr w.exec_maybe_addr)) _ w (λ _. run_maybe-Keeps w h)
                (Later-refl h))
              λ _ v k.
                let l =
                  same-Later v (record v { exec_maybe = []; exec_maybe_addr = [] }) k k.sound
                    (Grows-refl v.core.pgm) k.saved k.frames k.stack in
                then_ l (
                  Later-bind (run_all-Keeps v.exec_delay _ l.running) λ _ u m.
                    done
                      (same-Later u _ m m.sound (Grows-refl u.core.pgm) m.saved m.frames m.stack)))
        (λ _. done (Later-refl h))

  -- All callbacks of a list.
  abbrev AllKeep : List Scan → Type 0
  AllKeep [] = Unit {0}
  AllKeep (k ∷ ks) = ((inst : Instruction) → Keeps (k inst)) × AllKeep ks

  append-AllKeep : (xs ys : List Scan) → AllKeep xs → AllKeep ys → AllKeep (xs ++ ys)
  append-AllKeep [] ys h k = k
  append-AllKeep (x ∷ xs) ys h k = (h.0, append-AllKeep xs ys h.1 k)

  if-AllKeep :
      (b : Bool) (xs ys : List Scan) → AllKeep xs → AllKeep ys → AllKeep (if b then xs else ys)
  if-AllKeep true xs ys h k = h
  if-AllKeep false xs ys h k = k

  abbrev NamedKeep : List (String × List Scan) → Type 0
  NamedKeep [] = Unit {0}
  NamedKeep (e ∷ es) = AllKeep e.1 × NamedKeep es

  named-AllKeep :
      (s : String) (es : List (String × List Scan)) → NamedKeep es → AllKeep (named s es)
  named-AllKeep s [] h = tt
  named-AllKeep s (e ∷ es) h = if-AllKeep (str_eq s e.0) e.1 _ h.0 (named-AllKeep s es h.1)

  named_callbacks-NamedKeep : NamedKeep named_callbacks
  named_callbacks-NamedKeep =
      (scan_creadhwr-Keeps & tt)
      & (scan_cwritehwr-Keeps & tt)
      & (scan_cseal-Keeps & tt)
      & (scan_cunseal-Keeps & tt)
      & (scan_cclearregs-Keeps & tt)
      & (scan_cclearhi-Keeps & tt)
      & (scan_cclearlo-Keeps & tt)
      & (scan_cgetnull-Keeps & tt)
      & (scan_cgetpcc-Keeps & tt)
      & (scan_cgetpccsetoffset-Keeps & tt)
      & ((λ i. scan_csetbounds-Keeps i false) & tt)
      & ((λ i. scan_cfromptr-Keeps i false) & tt)
      & ((λ i. scan_cfromptr-Keeps i false) & tt)
      & ((λ i. scan_candperm-Keeps i false) & tt)
      & ((λ i. scan_cmovn-Keeps i false) & tt)
      & ((λ i. scan_cmovz-Keeps i false) & tt)
      & ((λ i. scan_clc-Keeps i false) & tt)
      & ((λ i. scan_clc-Keeps i false) & tt)
      & ((λ i. scan_clc-Keeps i false) & tt)
      & ((λ i. scan_clc-Keeps i false) & tt)
      & ((λ i. scan_csc-Keeps i false) & tt)
      & ((λ i. scan_csc-Keeps i false) & tt)
      & ((λ i. scan_csc-Keeps i false) & tt)
      & ((λ i. scan_csc-Keeps i false) & tt)
      & (prov_dmfc0-Keeps & branch_dmfc0-Keeps & tt)
      & (stack_eret-Keeps & syscall_eret-Keeps & branch_eret-Keeps & call_eret-Keeps & tt)
      & (branch_ccall-Keeps & tt)
      & (branch_creturn-Keeps & tt)
      & (branch_cjalr-Keeps & call_cjalr-Keeps & tt)
      & (branch_cjr-Keeps & call_cjr-Keeps & tt)
      & (call_jalr-Keeps & tt)
      & (call_jr-Keeps & tt)
      & (scan_addiu-Keeps & tt)
      & (call_syscall-Keeps & tt)
      & tt

  class_callbacks-AllKeep : (s : String) → AllKeep (class_callbacks s)
  class_callbacks-AllKeep s =
      if-AllKeep (one_of s cap_arith_opcodes) _ _ ((λ i. scan_cap_arith-Keeps i false), tt)
        (if-AllKeep (one_of s cap_load_opcodes) _ _ (scan_cap_load-Keeps, tt)
          (if-AllKeep (one_of s cap_store_opcodes) _ _ (scan_cap_store-Keeps, tt) tt))

  get_callbacks-AllKeep : (inst : Instruction) → AllKeep (get_callbacks inst)
  unfolding get_callbacks opcode_callbacks
  get_callbacks-AllKeep inst =
      append-AllKeep (class_callbacks inst.opcode ++ named inst.opcode named_callbacks) _
        (append-AllKeep (class_callbacks inst.opcode) _ (class_callbacks-AllKeep inst.opcode)
          (named-AllKeep inst.opcode named_callbacks named_callbacks-NamedKeep))
        (append-AllKeep _ _
          (if-AllKeep inst.entry.is_store _ _ ((λ i. scan_mem_store-Keeps i false), tt) tt)
          (append-AllKeep _ _
            (if-AllKeep (in_delay_slot inst) _ _
              (branch_delay_slot-Keeps run_callback run_callback-Keeps
                & call_delay_slot-Keeps run_callback run_callback-Keeps
                & tt)
              tt)
            (if-AllKeep (has_exception inst) _ _
              (syscall_exception-Keeps & call_exception-Keeps & tt) tt)))

  run_scans-Keeps : (ks : List Scan) (inst : Instruction) → AllKeep ks → Keeps (run_scans ks inst)
  run_scans-Keeps [] inst a w h = done (Later-refl h)
  run_scans-Keeps (k ∷ ks) inst a w h =
      Later-bind (a.0 inst w h) λ _ v h1. run_scans-Keeps ks inst a.1 v h1

  scan_entry-Keeps : (inst : Instruction) → Keeps (scan_entry inst)
  unfolding scan_entry
  scan_entry-Keeps inst w h =
      run_scans-Keeps (get_callbacks inst) inst (get_callbacks-AllKeep inst) w h

  pub scan_trace-Keeps : (insts : List Instruction) → Keeps (scan_trace insts)
  unfolding scan_trace
  scan_trace-Keeps [] w h = done (Later-refl h)
  scan_trace-Keeps (i ∷ insts) w h =
      Later-bind (scan_entry-Keeps i w h) λ _ v h1. scan_trace-Keeps insts v h1
