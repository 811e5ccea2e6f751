-- ===== src/Parser/Memory.antt =====
-- The callbacks of PointerProvenanceSubparser (provenance/parser/sub_mips.py) for loads, stores and
-- dereferences, and `mem_overwrite`.
use Prim.Native.Char.{code}
use text.Mathlib.Text.{starts_with}
use cheriplot.Base.{
  ℕ, ◌-◌, String, Bool, true, false, not, ◌&&◌, ◌||◌, Option, none, some, bit_and, ◌==◌, str_eq,
  if◌then◌else◌, opt_eq, is_some, mem_opt,
}
use cheriplot.Base.Int.{ℤ, pos}
use cheriplot.Base.Errors.{
  dereference_unknown_capability, type_error, M, pure, raise, gets, of_result, when, ◌>>=◌, ◌>>◌,
  Result,
}
use cheriplot.Graph.{GraphTool}
use cheriplot.Trace.{Entry, Instruction, Value, cap_index, operand, Operand}
use cheriplot.Model.Vertex.{
  add_mem_load, add_mem_store, add_mem_del, add_deref_load, add_deref_store, has_active_memory,
}
use cheriplot.Parser.State.{Core, prov_data, put_data, put_cap}
use cheriplot.Parser.VertexMap.{clear, vertex_at, mem_load, mem_store}
use cheriplot.Parser.RegisterSet.{get_reg, set_reg, has_reg, is_cap_compatible}
use cheriplot.Parser.Nodes.{make_root_node}
use cheriplot.Parser.Worker.{Worker, Callback, lift}
use cheriplot.Parser.Defer.{
  operand_value, as_register, is_deferred, assert_matches, maybe_scan, unless_paused,
}

-- `opcode[-1] in "ri"`
abbrev last_is_ri : String → Bool
last_is_ri String.[] = false
last_is_ri (String.◌∷◌ c String.[]) = code c == b'r' || code c == b'i'
last_is_ri (String.◌∷◌ c (String.◌∷◌ d s)) = last_is_ri (String.◌∷◌ d s)

-- `addr & ~(capability_size - 1)`
unfoldable pub align : ℕ → ℕ → ℕ
align capability_size addr = addr - bit_and addr (capability_size - 1)

-- The operand that points to the memory that a load accesses.
unfoldable pub load_pointer : Instruction → Result Operand
load_pointer inst =
    if starts_with inst.opcode "cll"
    then operand 1 inst
    else (if last_is_ri inst.opcode then operand 2 inst else operand 3 inst)

-- The operand that points to the memory that a store accesses.
unfoldable pub store_pointer : Instruction → Result Operand
store_pointer inst =
    if not (str_eq inst.opcode "csc") && starts_with inst.opcode "csc"
    then operand 2 inst
    else (if last_is_ri inst.opcode then operand 2 inst else operand 3 inst)

module _ ⦃gt : GraphTool⦄ where
  -- `mem_overwrite` on the aligned address.
  unfoldable pub overwrite_at : Entry → ℕ → ℕ → Option ℕ → M Core (Unit {0})
  overwrite_at entry time addr new_vertex = do
    old ← vertex_at addr
    elim old [
      | none ↦ pure tt
      | some v ↦ if opt_eq (some v) new_vertex then pure tt else (do
        d ← prov_data v
        put_data v (add_mem_del d time addr entry.is_kernel)
        v_data ← prov_data v
        in_regs ← gets (λ s. mem_opt v s.reg_nodes)
        if in_regs || has_active_memory v_data
            then pure tt
            else put_cap v v_data (λ c. record c { t_free = pos time }))
    ]

  unfoldable pub mem_overwrite : Entry → ℕ → ℕ → Option ℕ → M Worker (Unit {0})
  unfolding overwrite_at align
  mem_overwrite entry time addr new_vertex =
      unless_paused
        (λ w. lift (overwrite_at entry time (align w.capability_size addr) new_vertex) w)

  -- The part of `_handle_dereference` that records the event.
  unfoldable pub record_dereference : Instruction → ℤ → M Core (Unit {0})
  record_dereference inst ptr_reg = do
    let entry = inst.entry
    node ← get_reg ptr_reg
    elim node [
      | none ↦ raise dereference_unknown_capability
      | some v ↦ do
        d ← prov_data v
        let is_cap =
            starts_with inst.opcode "clc"
            || (str_eq inst.opcode "csc" || str_eq inst.opcode "cscbi")
        if entry.is_load
            then put_data v
                (add_deref_load d entry.cycles entry.memory_address entry.is_kernel is_cap)
            else (if entry.is_store
                then put_data v
                    (add_deref_store d entry.cycles entry.memory_address entry.is_kernel is_cap)
                else pure tt)
    ]

  unfoldable pub handle_dereference : Instruction → ℤ → Bool → M Worker (Unit {0})
  unfolding is_deferred maybe_scan record_dereference
  handle_dereference inst ptr_reg maybe_call =
      if is_deferred inst maybe_call
      then (if inst.entry.is_load || inst.entry.is_store
          then maybe_scan (Callback.dereference inst ptr_reg) (some inst.entry.memory_address)
          else pure tt)
      else lift (record_dereference inst ptr_reg)

  unfoldable pub scan_cap_load : Instruction → M Worker (Unit {0})
  unfolding handle_dereference load_pointer
  scan_cap_load inst =
      unless_paused
        (do ptr ← of_result (load_pointer inst); handle_dereference inst (cap_index ptr) false)

  unfoldable pub scan_cap_store : Instruction → M Worker (Unit {0})
  unfolding handle_dereference store_pointer
  scan_cap_store inst =
      unless_paused
        (do ptr ← of_result (store_pointer inst); handle_dereference inst (cap_index ptr) false)

  unfoldable pub scan_mem_store : Instruction → Bool → M Worker (Unit {0})
  unfolding is_deferred maybe_scan mem_overwrite
  scan_mem_store inst maybe_call = unless_paused (
      if is_deferred inst maybe_call
      then maybe_scan (Callback.mem_store inst) (some inst.entry.pc)
      else when (not (str_eq inst.opcode "csc"))
          (mem_overwrite inst.entry inst.entry.cycles inst.entry.memory_address none))

  -- `scan_clc` where the loaded value is valid: the vertex at the address, or a new root.
  unfoldable pub loaded_vertex : Instruction → Value → Option ℕ → M Core ℕ
  loaded_vertex inst v node = do
    let entry = inst.entry
    fits ← elim node [
      | none ↦ pure false
      | some u ↦ do d ← gets (λ s. s.pgm.data_of u); of_result (is_cap_compatible d v)
    ]
    elim (if fits then node else none) [
      | some u ↦ pure u
      | none ↦ do
        u ← make_root_node entry v entry.cycles
        stored ← mem_load entry.memory_address (some u)
        pure u
    ]

  -- The part of `scan_clc` behind the guards.
  unfoldable pub clc_core : Instruction → M Core (Unit {0})
  unfolding loaded_vertex
  clc_core inst = do
    let entry = inst.entry
    cd ← of_result (operand 0 inst)
    node ← mem_load entry.memory_address none
    v ← of_result (operand_value 0 inst)
    r ← of_result (as_register v)
    if not r.valid
        then (do
          set_reg (cap_index cd) none entry.cycles
          when (is_some node) (clear entry.memory_address))
        else (do
          u ← loaded_vertex inst v node
          d ← prov_data u
          assert_matches d v
          put_data u (add_mem_load d entry.cycles entry.memory_address entry.is_kernel)
          set_reg (cap_index cd) (some u) entry.cycles)

  -- Also `scan_clcr`, `scan_clci` and `scan_clcbi`.
  unfoldable pub scan_clc : Instruction → Bool → M Worker (Unit {0})
  unfolding is_deferred maybe_scan clc_core
  scan_clc inst maybe_call = unless_paused (
      if is_deferred inst maybe_call
      then (if inst.entry.is_load
          then maybe_scan (Callback.clc inst) (some inst.entry.memory_address)
          else pure tt)
      else lift (clc_core inst))

  -- The vertex of the register that `scan_csc` stores, or a new root.
  unfoldable pub stored_vertex : Instruction → ℤ → Value → M Core (Option ℕ)
  stored_vertex inst cd v = do
    known ← has_reg cd v inst.entry.cycles true
    if known then get_reg cd else (do
      node ← make_root_node inst.entry v inst.entry.cycles
      set_reg cd (some node) inst.entry.cycles
      pure (some node))

  -- The vertex of the stored register is at the address now.
  unfoldable pub record_store : Instruction → ℕ → M Core (Unit {0})
  record_store inst u = do
    let entry = inst.entry
    mem_store entry.memory_address u
    d ← prov_data u
    put_data u (add_mem_store d entry.cycles entry.memory_address entry.is_kernel)

  -- The part of `scan_csc` behind the guards.
  unfoldable pub csc_body : Instruction → M Worker (Unit {0})
  unfolding stored_vertex mem_overwrite record_store
  csc_body inst = do
    let entry = inst.entry
    dst ← of_result (operand 0 inst)
    v ← of_result (operand_value 0 inst)
    r ← of_result (as_register v)
    when r.valid (do
      node ← lift (stored_vertex inst (cap_index dst) v)
      mem_overwrite entry entry.cycles entry.memory_address node
      elim node [ none ↦ raise type_error | some u ↦ lift (record_store inst u) ])

  -- Also `scan_cscr`, `scan_csci` and `scan_cscbi`.
  unfoldable pub scan_csc : Instruction → Bool → M Worker (Unit {0})
  unfolding is_deferred maybe_scan csc_body
  scan_csc inst maybe_call = unless_paused (
      if is_deferred inst maybe_call
      then (if inst.entry.is_store
          then maybe_scan (Callback.csc inst) (some inst.entry.memory_address)
          else pure tt)
      else csc_body inst)
