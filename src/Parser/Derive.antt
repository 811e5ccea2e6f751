-- ===== src/Parser/Derive.antt =====
-- The callbacks of PointerProvenanceSubparser (provenance/parser/sub_mips.py) that derive a
-- capability: each makes a new vertex.
use cheriplot.Base.{Bool, ◌&&◌, Option, none, some, if◌then◌else◌}
use cheriplot.Base.Int.{ℤ, pos, negsuc, int_eq}
use cheriplot.Base.Errors.{M, of_result, ◌>>=◌}
use cheriplot.Graph.{GraphTool}
use cheriplot.Trace.{Instruction, cap_index, caphw_index, operand}
use cheriplot.Model.Vertex.{CheriNodeOrigin, setbounds, fromptr, andperm}
use cheriplot.Parser.State.{Core}
use cheriplot.Parser.RegisterSet.{set_reg}
use cheriplot.Parser.Nodes.{make_node}
use cheriplot.Parser.Worker.{Worker, Callback, lift}
use cheriplot.Parser.Defer.{is_deferred, maybe_scan, unless_paused}

module _ ⦃gt : GraphTool⦄ where
  -- The end of a callback that derives a capability.
  abbrev pub derive : Instruction → CheriNodeOrigin → Option ℤ → M Core (Unit {0})
  derive inst origin src_reg_index = do
    node ← make_node inst origin src_reg_index
    dst ← of_result (operand 0 inst)
    set_reg (cap_index dst) (some node) inst.entry.cycles

  unfoldable pub scan_csetbounds : Instruction → Bool → M Worker (Unit {0})
  unfolding is_deferred maybe_scan
  scan_csetbounds inst maybe_call = unless_paused (
      if is_deferred inst maybe_call
      then maybe_scan (Callback.csetbounds inst) (some inst.entry.pc)
      else lift (derive inst setbounds none))

  -- The part of `scan_cfromptr` behind the guards.
  unfoldable pub cfromptr_core : Instruction → M Core (Unit {0})
  cfromptr_core inst = do
    src ← of_result (operand 1 inst)
    if int_eq (cap_index src) (negsuc 0) && int_eq (caphw_index src) (pos 0)
        then derive inst fromptr (some (pos 32))
        else derive inst fromptr none

  -- Also `scan_cfromddc`, whose source is the hardware register ddc.
  unfoldable pub scan_cfromptr : Instruction → Bool → M Worker (Unit {0})
  unfolding is_deferred maybe_scan cfromptr_core
  scan_cfromptr inst maybe_call = unless_paused (
      if is_deferred inst maybe_call
      then maybe_scan (Callback.cfromptr inst) (some inst.entry.pc)
      else lift (cfromptr_core inst))

  unfoldable pub scan_candperm : Instruction → Bool → M Worker (Unit {0})
  unfolding is_deferred maybe_scan
  scan_candperm inst maybe_call = unless_paused (
      if is_deferred inst maybe_call
      then maybe_scan (Callback.candperm inst) (some inst.entry.pc)
      else lift (derive inst andperm none))
