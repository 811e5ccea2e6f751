-- ===== src/Parser/Deferred.antt =====
-- The deferred callbacks of provenance/parser/sub_mips.py and the decision about them, `scan_dmfc0`
-- of PointerProvenanceSubparser.
use cheriplot.Base.{
  ℕ, zero, suc, Bool, true, false, not, ◌&&◌, List, [], ◌∷◌, if◌then◌else◌, length,
}
use cheriplot.Base.Int.{pos, int_eq}
use cheriplot.Base.Errors.{assertion, M, pure, gets, modify, of_result, when, check, ◌>>=◌, ◌>>◌}
use cheriplot.Graph.{GraphTool}
use cheriplot.Trace.{Instruction, Value, gpr_index, operand}
use cheriplot.Parser.Worker.{Worker, Callback}
use cheriplot.Parser.Defer.{operand_value, unless_paused}
use cheriplot.Parser.Derive.{scan_csetbounds, scan_cfromptr, scan_candperm}
use cheriplot.Parser.Arith.{scan_cap_arith, scan_cmovn}
use cheriplot.Parser.Memory.{scan_mem_store, scan_clc, scan_csc, handle_dereference}
use cheriplot.Parser.Branch.{do_branch_cjr, do_branch_cjalr, is_addr}
use cheriplot.Parser.Syscall.{do_scan_exception}
use cheriplot.Parser.Calls.{do_call_cjr, do_call_cjalr, do_call_jr, do_call_jalr}

abbrev pub drop_callbacks : ℕ → List Callback → List Callback
drop_callbacks zero xs = xs
drop_callbacks (suc n) [] = []
drop_callbacks (suc n) (x ∷ xs) = drop_callbacks n xs

abbrev pub is_empty {ℓ} : {A : Type ℓ} → List A → Bool
is_empty [] = true
is_empty (x ∷ xs) = false

-- `badvaddr in addrs`
abbrev pub addr_mem : Value → List ℕ → Bool
addr_mem v [] = false
addr_mem v (a ∷ as_) = if is_addr v a then true else addr_mem v as_

module _ ⦃gt : GraphTool⦄ where
  -- What the closure of a deferred callback does.
  unfoldable pub run_callback : Callback → M Worker (Unit {0})
  run_callback (Callback.csetbounds i) = scan_csetbounds i true
  run_callback (Callback.cfromptr i) = scan_cfromptr i true
  run_callback (Callback.candperm i) = scan_candperm i true
  run_callback (Callback.cmovn i) = scan_cmovn i true
  run_callback (Callback.cap_arith i) = scan_cap_arith i true
  run_callback (Callback.mem_store i) = scan_mem_store i true
  run_callback (Callback.clc i) = scan_clc i true
  run_callback (Callback.csc i) = scan_csc i true
  run_callback (Callback.dereference i r) = handle_dereference i r true
  run_callback (Callback.exception i) = do_scan_exception i
  run_callback (Callback.branch_cjr i) = do_branch_cjr i
  run_callback (Callback.branch_cjalr i) = do_branch_cjalr i
  run_callback (Callback.call_cjr i) = do_call_cjr i
  run_callback (Callback.call_cjalr i) = do_call_cjalr i
  run_callback (Callback.call_jr i) = do_call_jr i
  run_callback (Callback.call_jalr i) = do_call_jalr i

  unfoldable pub run_all : List Callback → M Worker (Unit {0})
  run_all [] = pure tt
  run_all (k ∷ ks) = do run_callback k; run_all ks

  -- The loop over `exec_maybe`. It runs over the list as it grows: a conditional move may append an
  -- arithmetic callback, which appends nothing, so the loop ends behind those.
  unfoldable pub run_maybe : M Worker (Unit {0})
  unfolding run_all
  run_maybe = do
    queued ← gets (λ w. w.exec_maybe)
    run_all queued
    grown ← gets (λ w. w.exec_maybe)
    run_all (drop_callbacks (length queued) grown)

  -- `PointerProvenanceSubparser.scan_dmfc0`
  unfoldable pub prov_dmfc0 : Instruction → M Worker (Unit {0})
  unfolding run_maybe run_all
  prov_dmfc0 inst = unless_paused (do
    src ← of_result (operand 1 inst)
    queued ← gets (λ w. w.exec_maybe)
    if int_eq (gpr_index src) (pos 8) && not (is_empty queued)
        then (do
          addrs ← gets (λ w. w.exec_maybe_addr)
          check (not (is_empty addrs)) assertion
          badvaddr ← of_result (operand_value 0 inst)
          when (not (addr_mem badvaddr addrs)) run_maybe
          modify (λ w. record w { exec_maybe = []; exec_maybe_addr = [] })
          delayed ← gets (λ w. w.exec_delay)
          run_all delayed
          modify (λ w. record w { exec_delay = [] }))
        else pure tt)
