-- ===== src/Parser/Calls.antt =====
-- The callbacks of the class CallgraphSubparser of provenance/parser/sub_mips.py.
use cheriplot.Base.{
  ℕ, ◌+◌, Bool, true, false, not, ◌&&◌, ◌||◌, Option, none, some, List, [], ◌∷◌, ◌++◌, ◌==◌,
  if◌then◌else◌,
}
use cheriplot.Base.Int.{ℤ, pos, ◌+ℤ◌, ◌-ℤ◌, abs, int_eq, ltb_ℤ}
use cheriplot.Base.Errors.{
  Result, ok, err, unexpected_operation, type_error, index_error, M, pure, raise, gets, modify,
  of_result, or_raise, when, ◌>>=◌, ◌>>◌,
}
use cheriplot.Graph.{GraphTool}
use cheriplot.Trace.{
  Instruction, TraceRegs, CapRegister, Value, nothing, num, cap, vertex, cap_index, gpr_index,
  operand, has_exception,
}
use cheriplot.Model.Vertex.{is_partial}
use cheriplot.Model.Manager.{EdgeOperation}
use cheriplot.Parser.State.{Core, as_call, as_prov}
use cheriplot.Parser.RegisterSet.{get_reg, epcc}
use cheriplot.Parser.Worker.{Worker, Callback, lift}
use cheriplot.Parser.Defer.{operand_value, as_register, unless_paused}
use cheriplot.Parser.Frames.{
  put_calls, make_call, make_call_return, make_syscall_return, top, put_call_data,
}

-- `_get_syscall_code`
unfoldable pub get_syscall_code : TraceRegs → ℕ
get_syscall_code regs =
    let code = regs.gpr 1 in if code == 0 || code == 198 then regs.gpr 3 else code

-- `cap.base + cap.offset`
abbrev pub cursor : CapRegister → Option ℤ
cursor r = some (pos (r.base + r.offset))

-- The value of a general purpose register as an address.
abbrev pub as_addr : Value → Result (Option ℤ)
as_addr nothing = ok none
as_addr (num n) = ok (some n)
as_addr (cap r) = err type_error
as_addr (vertex v) = err type_error

abbrev pub as_number : Value → Result ℤ
as_number (num n) = ok n
as_number nothing = err type_error
as_number (cap r) = err type_error
as_number (vertex v) = err type_error

-- `exec_maybe.insert(1, k)`
abbrev pub insert_second : Callback → List Callback → List Callback
insert_second k [] = k ∷ []
insert_second k (x ∷ xs) = x ∷ k ∷ xs

-- `exec_maybe_addr.append(addr)`: the address is set with the callback.
abbrev pub append_addr : Option ℕ → List ℕ → List ℕ
append_addr none addrs = addrs
append_addr (some a) addrs = addrs ++ a ∷ []

abbrev pub opt_int_eq : Option ℤ → Option ℤ → Bool
opt_int_eq none none = true
opt_int_eq (some a) (some b) = int_eq a b
opt_int_eq _ _ = false

module _ ⦃gt : GraphTool⦄ where
  abbrev pub set_call_cbk : Callback → ℕ → M Worker (Unit {0})
  set_call_cbk k pc = put_calls (λ c. record c { call_cbk = some k; call_cbk_addr = some pc })

  -- `scan_delay_slot`; `run` invokes a callback.
  unfoldable pub call_delay_slot :
      (Callback → M Worker (Unit {0})) → Instruction → M Worker (Unit {0})
  call_delay_slot run inst = unless_paused (do
    c ← gets (λ w. w.calls)
    elim c.call_cbk [
      | none ↦ pure tt
      | some k ↦ do
        if has_exception inst && not (inst.entry.exception == 0)
            then modify (λ w. record w {
              exec_maybe = insert_second k w.exec_maybe;
              exec_maybe_addr = append_addr c.call_cbk_addr w.exec_maybe_addr;
            })
            else run k
        put_calls (λ c. record c { call_cbk = none })
    ])

  unfoldable pub scan_addiu : Instruction → M Worker (Unit {0})
  scan_addiu inst = unless_paused (do
    c ← gets (λ w. w.calls)
    if opt_int_eq (some (pos inst.entry.pc)) c.landing_addr
        then (do
          dst ← of_result (operand 0 inst)
          when (int_eq (gpr_index dst) (pos 29)) (do
            frame ← or_raise (top c.call_stack) index_error
            stored ← gets (λ w. w.core.pgm.data_of frame.0)
            d ← of_result (as_call stored)
            v ← of_result (operand_value 2 inst)
            n ← of_result (as_number v)
            lift (
                put_call_data frame.0
                  (record d { stack_frame_size = d.stack_frame_size + abs n }))))
        else pure tt)

  -- `_do_scan_cjalr`
  unfoldable pub do_call_cjalr : Instruction → M Worker (Unit {0})
  do_call_cjalr inst = do
    target ← of_result (operand 1 inst)
    target_vertex ← lift (get_reg (cap_index target))
    target_value ← of_result (operand_value 1 inst)
    link_value ← of_result (operand_value 0 inst)
    target_cap ← of_result (as_register target_value)
    link_cap ← of_result (as_register link_value)
    when (not (has_exception inst))
        (make_call inst.entry inst.regset (cursor target_cap) (cursor link_cap) EdgeOperation.call)

  -- `_do_scan_cjr`: a return goes through $c17.
  unfoldable pub do_call_cjr : Instruction → M Worker (Unit {0})
  do_call_cjr inst = do
    v ← of_result (operand_value 0 inst)
    return_cap ← of_result (as_register v)
    src ← of_result (operand 0 inst)
    when (not (has_exception inst) && int_eq (cap_index src) (pos 17))
        (make_call_return inst.entry (cursor return_cap) inst.regset)

  -- `_do_scan_jalr`
  unfoldable pub do_call_jalr : Instruction → M Worker (Unit {0})
  do_call_jalr inst = do
    target_value ← of_result (operand_value 1 inst)
    link_value ← of_result (operand_value 0 inst)
    when (not (has_exception inst)) (do
      target_addr ← of_result (as_addr target_value)
      link_addr ← of_result (as_addr link_value)
      make_call inst.entry inst.regset target_addr link_addr EdgeOperation.call)

  -- `_do_scan_jr`
  unfoldable pub do_call_jr : Instruction → M Worker (Unit {0})
  do_call_jr inst = do
    v ← of_result (operand_value 0 inst)
    when (not (has_exception inst))
        (do addr ← of_result (as_addr v); make_call_return inst.entry addr inst.regset)

  unfoldable pub call_cjalr : Instruction → M Worker (Unit {0})
  unfolding do_call_cjalr
  call_cjalr inst = unless_paused (
      if has_exception inst
      then do_call_cjalr inst
      else set_call_cbk (Callback.call_cjalr inst) inst.entry.pc)

  unfoldable pub call_cjr : Instruction → M Worker (Unit {0})
  unfolding do_call_cjr
  call_cjr inst = unless_paused (
      if has_exception inst
      then do_call_cjr inst
      else set_call_cbk (Callback.call_cjr inst) inst.entry.pc)

  unfoldable pub call_jalr : Instruction → M Worker (Unit {0})
  unfolding do_call_jalr
  call_jalr inst = unless_paused (
      if has_exception inst
      then do_call_jalr inst
      else set_call_cbk (Callback.call_jalr inst) inst.entry.pc)

  unfoldable pub call_jr : Instruction → M Worker (Unit {0})
  unfolding do_call_jr
  call_jr inst = unless_paused (
      if has_exception inst
      then do_call_jr inst
      else set_call_cbk (Callback.call_jr inst) inst.entry.pc)

  unfoldable pub call_exception : Instruction → M Worker (Unit {0})
  call_exception inst =
      unless_paused (put_calls (λ c. record c { exception_depth = c.exception_depth +ℤ pos 1 }))

  unfoldable pub call_syscall : Instruction → M Worker (Unit {0})
  unfolding get_syscall_code
  call_syscall inst = unless_paused (do
    put_calls (λ c. record c { in_syscall = true })
    make_call inst.entry inst.regset (some (pos (get_syscall_code inst.regset))) none
        EdgeOperation.syscall)

  -- Is epcc unknown to the trace and to the register set?
  unfoldable pub epcc_unknown : Instruction → M Core Bool
  epcc_unknown inst = do
    node ← get_reg epcc
    if inst.regset.valid_hwcaps 31 then pure false else elim node [
      | none ↦ pure true
      | some v ↦ do
        stored ← gets (λ s. s.pgm.data_of v)
        d ← of_result (as_prov stored)
        pure (is_partial d.origin)
    ]

  -- `scan_eret` behind the step of the exception depth.
  unfoldable pub leave_syscall : Instruction → M Worker (Unit {0})
  unfolding epcc_unknown
  leave_syscall inst = do
    c ← gets (λ w. w.calls)
    if c.in_syscall && (int_eq c.exception_depth (pos 0) && not (has_exception inst))
        then (do
          unknown ← lift (epcc_unknown inst)
          if unknown then raise unexpected_operation else (do
            put_calls (λ c. record c { in_syscall = false })
            make_syscall_return inst.entry inst.regset))
        else when (ltb_ℤ c.exception_depth (pos 0))
            (put_calls (λ c. record c { exception_depth = pos 0 }))

  unfoldable pub call_eret : Instruction → M Worker (Unit {0})
  unfolding leave_syscall
  call_eret inst = unless_paused (do
    put_calls (λ c. record c { exception_depth = c.exception_depth -ℤ pos 1 })
    leave_syscall inst)
