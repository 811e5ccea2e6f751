-- ===== src/Parser/Branch.antt =====
-- The class CapabilityBranchSubparser of provenance/parser/sub_mips.py: pcc and epcc across
-- capability branches, and branches whose exception is not yet known to have committed.
use cheriplot.Base.{
  ℕ, ◌+◌, Bool, true, false, not, ◌&&◌, ◌||◌, Option, none, some, List, ◌∷◌, ◌==◌, if◌then◌else◌,
  length,
}
use cheriplot.Base.Int.{pos, negsuc, int_eq}
use cheriplot.Base.Errors.{
  assertion, not_implemented, unexpected_operation, attribute_error, type_error, M, pure, raise,
  gets, modify, of_result, or_raise, when, check, ◌>>=◌, ◌>>◌,
}
use cheriplot.Graph.{GraphTool}
use cheriplot.Trace.{
  Entry, Instruction, Operand, Value, num, cap_index, gpr_index, operand, value, has_exception,
}
use cheriplot.Model.Cap.{has_perm, perm_exec}
use cheriplot.Parser.State.{Core, as_cap, prov_data_at, put_cap}
use cheriplot.Parser.RegisterSet.{get_reg, set_reg, has_reg, pcc, epcc}
use cheriplot.Parser.Nodes.{make_root_node}
use cheriplot.Parser.Worker.{Worker, BranchState, Callback, lift}
use cheriplot.Parser.Defer.{operand_value, unless_paused}

-- `value == addr` for an address.
abbrev pub is_addr : Value → ℕ → Bool
is_addr (num (pos n)) a = n == a
is_addr _ a = false

module _ ⦃gt : GraphTool⦄ where
  abbrev pub put_branch : (BranchState → BranchState) → M Worker (Unit {0})
  put_branch f = modify (λ w. record w { branch = f w.branch })

  -- What the first decision about epcc does when the branch did not commit.
  unfoldable pub restore_epcc : Option ℕ → Option (List ℕ) → ℕ → M Core (Unit {0})
  restore_epcc saved_pcc saved_neighbours time = do
    node ← get_reg epcc
    v ← or_raise node attribute_error
    degree ← gets (λ s. length (gt.out_neighbours s.pgm.graph v))
    saved ← or_raise saved_neighbours type_error
    check (degree == length saved) assertion
    d ← prov_data_at saved_pcc
    u ← or_raise saved_pcc type_error
    put_cap u d (λ c. record c { t_free = negsuc 0 })
    set_reg epcc saved_pcc time

  unfoldable pub branch_dmfc0 : Instruction → M Worker (Unit {0})
  unfolding restore_epcc
  branch_dmfc0 inst = unless_paused (do
    b ← gets (λ w. w.branch)
    elim b.saved_addr [
      | some addr ↦ do
        put_branch (λ b. record b { save_first_mfc = false })
        src ← of_result (operand 1 inst)
        when (int_eq (gpr_index src) (pos 8)) (do
          badvaddr ← of_result (operand_value 0 inst)
          when (is_addr badvaddr addr || is_addr badvaddr (addr + 4))
              (lift (restore_epcc b.saved_pcc b.saved_epcc_out_neighbours inst.entry.cycles)))
        put_branch (λ b. record b { saved_addr = none })
      | none ↦ if not b.save_first_mfc then pure tt else (do
        src ← of_result (operand 1 inst)
        when (int_eq (gpr_index src) (pos 8)) (do
          badvaddr ← of_result (operand_value 0 inst)
          node ← lift (get_reg epcc)
          put_branch (λ b. record b {
            save_first_mfc = false;
            initial_badvaddr = badvaddr;
            initial_epcc = node;
          })))
    ])

  unfoldable pub branch_eret : Instruction → M Worker (Unit {0})
  branch_eret inst = unless_paused (put_branch (λ b. record b { save_first_mfc = false }))

  -- `_save_branch_state`
  unfoldable pub save_branch_state : Entry → Option ℕ → M Worker (Unit {0})
  save_branch_state entry target = do
    node ← lift (get_reg pcc)
    v ← or_raise target attribute_error
    neighbours ← gets (λ w. gt.out_neighbours w.core.pgm.graph v)
    put_branch (λ b. record b {
      save_first_mfc = false;
      saved_pcc = node;
      saved_addr = some entry.pc;
      saved_epcc_out_neighbours = some neighbours;
    })

  -- The part that `_do_scan_cjr` and `_do_scan_cjalr` share: pcc becomes the target's vertex.
  unfoldable pub jump_to : Instruction → Operand → M Worker (Unit {0})
  unfolding save_branch_state
  jump_to inst op = do
    let entry = inst.entry
    expected ← of_result (value inst op)
    known ← lift (has_reg (cap_index op) expected entry.cycles false)
    if not known then raise unexpected_operation else (do
      new_pcc ← lift (get_reg (cap_index op))
      when (has_exception inst) (save_branch_state entry new_pcc)
      lift (set_reg pcc new_pcc entry.cycles)
      now ← lift (get_reg pcc)
      d ← lift (prov_data_at now)
      c ← of_result (as_cap d.cap)
      exec ← of_result (has_perm c perm_exec)
      if exec then pure tt else raise unexpected_operation)

  -- `_do_scan_cjr`
  unfoldable pub do_branch_cjr : Instruction → M Worker (Unit {0})
  unfolding jump_to
  do_branch_cjr inst = do target ← of_result (operand 0 inst); jump_to inst target

  -- The vertex that `_do_scan_cjalr` links: pcc, or a new root.
  unfoldable pub link_vertex : Instruction → M Core (Option ℕ)
  link_vertex inst = do
    v ← of_result (operand_value 0 inst)
    known ← has_reg pcc v inst.entry.cycles true
    if known
        then get_reg pcc
        else (do node ← make_root_node inst.entry v inst.entry.cycles; pure (some node))

  -- `_do_scan_cjalr`
  unfoldable pub do_branch_cjalr : Instruction → M Worker (Unit {0})
  unfolding link_vertex jump_to
  do_branch_cjalr inst = do
    link ← of_result (operand 0 inst)
    old_pcc_node ← lift (link_vertex inst)
    lift (set_reg (cap_index link) old_pcc_node inst.entry.cycles)
    target ← of_result (operand 1 inst)
    jump_to inst target

  unfoldable pub branch_cjalr : Instruction → M Worker (Unit {0})
  unfolding do_branch_cjalr
  branch_cjalr inst = unless_paused (
      if has_exception inst
      then do_branch_cjalr inst
      else put_branch (λ b. record b { branch_cbk = some (Callback.branch_cjalr inst) }))

  unfoldable pub branch_cjr : Instruction → M Worker (Unit {0})
  unfolding do_branch_cjr
  branch_cjr inst = unless_paused (
      if has_exception inst
      then do_branch_cjr inst
      else put_branch (λ b. record b { branch_cbk = some (Callback.branch_cjr inst) }))

  -- `scan_delay_slot`; `run` invokes a callback.
  unfoldable pub branch_delay_slot :
      (Callback → M Worker (Unit {0})) → Instruction → M Worker (Unit {0})
  branch_delay_slot run inst = unless_paused (do
    cbk ← gets (λ w. w.branch.branch_cbk)
    elim cbk [
      | none ↦ pure tt
      | some k ↦ do
        if has_exception inst && not (inst.entry.exception == 0)
            then modify (λ w. record w { exec_maybe = k ∷ w.exec_maybe })
            else run k
        put_branch (λ b. record b { branch_cbk = none })
    ])

  unfoldable pub branch_ccall : Instruction → M Worker (Unit {0})
  branch_ccall inst = raise not_implemented

  unfoldable pub branch_creturn : Instruction → M Worker (Unit {0})
  branch_creturn inst = raise not_implemented
