-- ===== src/Parser/Defer.antt =====
-- What the callbacks of PointerProvenanceSubparser (provenance/parser/sub_mips.py) share: the values
-- of operands, the pause, and the queues of deferred callbacks.
use cheriplot.Base.{
  ℕ, Bool, true, false, not, ◌&&◌, Option, none, some, [], ◌∷◌, ◌++◌, ◌==◌, if◌then◌else◌, opt_eq,
}
use cheriplot.Base.Int.{pos, int_eq}
use cheriplot.Base.Errors.{
  Result, ok, err, assertion, attribute_error, M, modify, of_result, check, ◌>>=◌, ◌>>◌,
}
use cheriplot.Graph.{GraphTool}
use cheriplot.Trace.{
  Instruction, CapRegister, Value, nothing, num, cap, vertex, operand, value, has_exception,
}
use cheriplot.Model.Vertex.{ProvenanceVertexData}
use cheriplot.Parser.State.{Core, as_cap}
use cheriplot.Parser.Worker.{Worker, Callback}

-- The value of operand `n`, `inst.op<n>.value`.
unfoldable pub operand_value : ℕ → Instruction → Result Value
unfolding value operand
operand_value n inst = elim (operand n inst) [ ok op ↦ value inst op | err e ↦ err e ]

-- `value.<attribute>` of a capability register.
abbrev pub as_register : Value → Result CapRegister
as_register (cap r) = ok r
as_register nothing = err attribute_error
as_register (num n) = err attribute_error
as_register (vertex v) = err attribute_error

-- The test that starts the deferrable callbacks.
unfoldable pub is_deferred : Instruction → Bool → Bool
unfolding has_exception
is_deferred inst maybe_call =
    has_exception inst && (not (inst.entry.exception == 0) && not maybe_call)

-- `value != 0` in Python.
abbrev pub is_nonzero : Value → Bool
is_nonzero (num n) = not (int_eq n (pos 0))
is_nonzero _ = true

-- `value is None`
abbrev pub is_nothing : Value → Bool
is_nothing nothing = true
is_nothing _ = false

module _ ⦃gt : GraphTool⦄ where
  -- The asserts that the capability of a vertex is that of a register of the trace.
  unfoldable pub assert_matches : ProvenanceVertexData → Value → M Core (Unit {0})
  assert_matches d v = do
    c ← of_result (as_cap d.cap)
    r ← of_result (as_register v)
    check (opt_eq c.base (some r.base)) assertion
    check (opt_eq c.length (some r.length)) assertion
    check (opt_eq c.permissions (some r.permissions)) assertion

  unfoldable pub maybe_scan : Callback → Option ℕ → M Worker (Unit {0})
  maybe_scan cbk addr = modify (λ w. record w {
    exec_maybe = w.exec_maybe ++ cbk ∷ [];
    exec_maybe_addr = elim addr [ none ↦ w.exec_maybe_addr | some a ↦ w.exec_maybe_addr ++ a ∷ [] ];
  })

  unfoldable pub delay_scan : Callback → M Worker (Unit {0})
  delay_scan cbk = modify (λ w. record w { exec_delay = w.exec_delay ++ cbk ∷ [] })

  -- `if self.paused: return False`
  abbrev pub unless_paused : M Worker (Unit {0}) → M Worker (Unit {0})
  unless_paused m w = if w.paused then ok (tt, w) else m w
