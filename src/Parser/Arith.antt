-- ===== src/Parser/Arith.antt =====
-- The callbacks of PointerProvenanceSubparser (provenance/parser/sub_mips.py) for capability
-- arithmetic and the conditional moves: they move a vertex between registers.
use cheriplot.Base.{Bool, true, false, not, none, some, if◌then◌else◌}
use cheriplot.Base.Errors.{Result, ok, err, assertion, M, pure, of_result, when, ◌>>=◌, ◌>>◌}
use cheriplot.Graph.{GraphTool}
use cheriplot.Trace.{Instruction, Operand, Value, is_capability, cap_index, op_n, operand, value}
use cheriplot.Model.Cap.{cheri_cap, cap_eq}
use cheriplot.Parser.State.{Core}
use cheriplot.Parser.RegisterSet.{get_reg, set_reg, has_reg}
use cheriplot.Parser.Nodes.{make_root_node}
use cheriplot.Parser.Worker.{Worker, Callback, lift}
use cheriplot.Parser.Defer.{
  operand_value, as_register, is_deferred, is_nonzero, maybe_scan, unless_paused,
}

module _ ⦃gt : GraphTool⦄ where
  -- `scan_cap_arith` where the source holds no usable vertex.
  unfoldable pub cap_arith_unknown : Instruction → Operand → M Core (Unit {0})
  cap_arith_unknown inst dst = do
    let entry = inst.entry
    v ← of_result (value inst dst)
    r ← of_result (as_register v)
    if r.valid
        then when (inst.regset.valid_caps (cap_index dst)) (do
          node ← make_root_node entry v entry.cycles
          src ← of_result (operand 1 inst)
          set_reg (cap_index src) (some node) entry.cycles
          set_reg (cap_index dst) (some node) entry.cycles)
        else set_reg (cap_index dst) none entry.cycles

  -- `scan_cap_arith` for a destination that is a capability register.
  unfoldable pub cap_arith_core : Instruction → Operand → M Core (Unit {0})
  unfolding cap_arith_unknown
  cap_arith_core inst dst = do
    src_vertex ← elim (op_n 1 inst) [
      | none ↦ pure false
      | some src ↦
          if is_capability src
          then (do v ← of_result (value inst dst); has_reg (cap_index src) v inst.entry.cycles true)
          else pure false
    ]
    if src_vertex
        then (do
          src ← of_result (operand 1 inst)
          node ← get_reg (cap_index src)
          set_reg (cap_index dst) node inst.entry.cycles)
        else cap_arith_unknown inst dst

  unfoldable pub scan_cap_arith : Instruction → Bool → M Worker (Unit {0})
  unfolding is_deferred maybe_scan cap_arith_core
  scan_cap_arith inst maybe_call = unless_paused (
      if is_deferred inst maybe_call
      then maybe_scan (Callback.cap_arith inst) (some inst.entry.pc)
      else elim (op_n 0 inst) [
        | none ↦ pure tt
        | some dst ↦ if is_capability dst then lift (cap_arith_core inst dst) else pure tt
      ])

  -- The condition of `scan_cmovn` and `scan_cmovz`: the registers agree, and the third operand
  -- passes the test.
  unfoldable pub moved : Instruction → (Value → Bool) → Result Bool
  unfolding operand_value
  moved inst test = elim (operand_value 0 inst) [
    | err e ↦ err e
    | ok dst ↦ elim (operand_value 1 inst) [
      | err e ↦ err e
      | ok src ↦ elim (cheri_cap dst) [
        | err e ↦ err e
        | ok a ↦ elim (cheri_cap src) [
          | err e ↦ err e
          | ok b ↦
              if cap_eq a b
              then (elim (operand_value 2 inst) [ err e ↦ err e | ok v ↦ ok (test v) ])
              else ok false
        ]
      ]
    ]
  ]

  -- `assert dst.is_capability and src.is_capability`
  abbrev pub assert_capabilities : Instruction → Result (Unit {0})
  assert_capabilities inst = elim (operand 0 inst) [
    | err e ↦ err e
    | ok dst ↦
        if is_capability dst
        then (elim (operand 1 inst) [
          | err e ↦ err e
          | ok src ↦ if is_capability src then ok tt else err assertion
        ])
        else err assertion
  ]

  abbrev pub conditional_move : Instruction → (Value → Bool) → M Worker (Unit {0})
  conditional_move inst test = do
    of_result (assert_capabilities inst)
    yes_ ← of_result (moved inst test)
    when yes_ (scan_cap_arith inst false)

  unfoldable pub scan_cmovn : Instruction → Bool → M Worker (Unit {0})
  unfolding is_deferred maybe_scan moved
  scan_cmovn inst maybe_call = unless_paused (
      if is_deferred inst maybe_call
      then maybe_scan (Callback.cmovn inst) (some inst.entry.pc)
      else conditional_move inst is_nonzero)

  -- The deferred callback is that of `scan_cmovn`, as in the source.
  unfoldable pub scan_cmovz : Instruction → Bool → M Worker (Unit {0})
  unfolding is_deferred maybe_scan moved
  scan_cmovz inst maybe_call = unless_paused (
      if is_deferred inst maybe_call
      then maybe_scan (Callback.cmovn inst) (some inst.entry.pc)
      else conditional_move inst (λ v. not (is_nonzero v)))
