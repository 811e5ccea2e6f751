-- ===== src/Parser/Hardware.antt =====
-- The callbacks of PointerProvenanceSubparser (provenance/parser/sub_mips.py) for the hardware
-- registers, pcc and cnull, and those that are not supported. Each returns False in the source, so
-- none of them ends the scan.
use cheriplot.Base.{true, false, not, none, some, if◌then◌else◌}
use cheriplot.Base.Int.{pos, negsuc, ◌+ℤ◌, int_eq}
use cheriplot.Base.Errors.{
  assertion, not_implemented, M, pure, raise, of_result, when, check, ◌>>=◌, ◌>>◌,
}
use cheriplot.Graph.{GraphTool}
use cheriplot.Trace.{Instruction, Operand, cap_index, caphw_index, operand, value}
use cheriplot.Model.Vertex.{is_partial}
use cheriplot.Parser.State.{Core, as_prov, prov_data_at, peek_data}
use cheriplot.Parser.RegisterSet.{get_reg, set_reg, has_reg, pcc}
use cheriplot.Parser.Nodes.{make_root_node}
use cheriplot.Parser.Worker.{Worker, lift}
use cheriplot.Parser.Defer.{operand_value, is_nothing, assert_matches, unless_paused}

module _ ⦃gt : GraphTool⦄ where
  -- `_handle_cpreg_get`
  unfoldable pub handle_cpreg_get : Operand → Operand → Instruction → M Core (Unit {0})
  unfolding assert_matches
  handle_cpreg_get op_dst op_hwr inst = do
    let entry = inst.entry
    let hwreg_num = caphw_index op_hwr +ℤ pos 32
    src_data ← peek_data (← get_reg hwreg_num)
    dst ← of_result (value inst op_dst)
    origin ←
        (if is_nothing dst
          then (do d ← of_result (as_prov src_data); pure (is_partial d.origin))
          else pure false)
    if origin then pure tt else (do
      known ← has_reg hwreg_num dst entry.cycles true
      when (not known) (do
        node ← make_root_node entry dst entry.cycles
        set_reg hwreg_num (some node) entry.cycles)
      when (not (is_nothing dst)) (do d ← prov_data_at (← get_reg hwreg_num); assert_matches d dst)
      now ← get_reg hwreg_num
      set_reg (cap_index op_dst) now entry.cycles)

  unfoldable pub scan_creadhwr : Instruction → M Worker (Unit {0})
  unfolding handle_cpreg_get
  scan_creadhwr inst = unless_paused (
      lift (do
        src ← of_result (operand 1 inst)
        check (not (int_eq (caphw_index src) (negsuc 0))) assertion
        dst ← of_result (operand 0 inst)
        handle_cpreg_get dst src inst))

  -- `_handle_cpreg_set`
  unfoldable pub handle_cpreg_set : Operand → Operand → Instruction → M Core (Unit {0})
  handle_cpreg_set op_hwr op_src inst = do
    let entry = inst.entry
    src ← of_result (value inst op_src)
    known ← has_reg (cap_index op_src) src entry.cycles true
    when (not known) (do
      hwr ← of_result (value inst op_hwr)
      node ← make_root_node entry hwr entry.cycles
      set_reg (cap_index op_src) (some node) entry.cycles)
    node ← get_reg (cap_index op_src)
    set_reg (caphw_index op_hwr +ℤ pos 32) node entry.cycles

  unfoldable pub scan_cwritehwr : Instruction → M Worker (Unit {0})
  unfolding handle_cpreg_set
  scan_cwritehwr inst = unless_paused (
      lift (do
        hwr ← of_result (operand 0 inst)
        check (not (int_eq (caphw_index hwr) (negsuc 0))) assertion
        src ← of_result (operand 1 inst)
        handle_cpreg_set hwr src inst))

  unfoldable pub scan_cseal : Instruction → M Worker (Unit {0})
  scan_cseal inst = unless_paused (raise not_implemented)

  unfoldable pub scan_cunseal : Instruction → M Worker (Unit {0})
  scan_cunseal inst = unless_paused (raise not_implemented)

  unfoldable pub scan_cclearregs : Instruction → M Worker (Unit {0})
  scan_cclearregs inst = unless_paused (raise not_implemented)

  unfoldable pub scan_cgetnull : Instruction → M Worker (Unit {0})
  scan_cgetnull inst = unless_paused (
      lift (do
        dst ← of_result (operand 0 inst)
        check (not (int_eq (cap_index dst) (negsuc 0))) assertion
        set_reg (cap_index dst) none inst.entry.cycles))

  -- The part of `scan_cgetpcc` behind the guard.
  unfoldable pub cgetpcc_core : Instruction → M Core (Unit {0})
  unfolding assert_matches
  cgetpcc_core inst = do
    let entry = inst.entry
    v ← of_result (operand_value 0 inst)
    known ← has_reg pcc v entry.cycles true
    when (not known)
        (do node ← make_root_node entry v entry.cycles; set_reg pcc (some node) entry.cycles)
    d ← prov_data_at (← get_reg pcc)
    assert_matches d v
    dst ← of_result (operand 0 inst)
    now ← get_reg pcc
    set_reg (cap_index dst) now entry.cycles

  unfoldable pub scan_cgetpcc : Instruction → M Worker (Unit {0})
  unfolding cgetpcc_core
  scan_cgetpcc inst = unless_paused (lift (cgetpcc_core inst))

  unfoldable pub scan_cgetpccsetoffset : Instruction → M Worker (Unit {0})
  unfolding scan_cgetpcc
  scan_cgetpccsetoffset inst = unless_paused (scan_cgetpcc inst)
