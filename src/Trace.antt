-- ===== src/Trace.antt =====
-- One trace entry as the callbacks see it: the data of pycheritrace that the program reads, and
-- the classes Operand and Instruction of core/parser/base.py.
-- `_scan` hands a callback the instruction with its own entry and register set, so those
-- arguments of the source are the fields `entry` and `regset` here.
use cheriplot.Base.{
  ℕ, ◌-◌, String, Bool, false, ◌&&◌, not, Option, none, some, List, ltb, leb, ◌==◌, if◌then◌else◌,
  get_elem?,
}
use cheriplot.Base.Int.{ℤ, pos, negsuc}
use cheriplot.Base.Errors.{value_error, attribute_error, index_error, Result, ok, err}

-- A pycheritrace capability_register: the fields that are read.
pub record CapRegister : Type 0 where
  pub base : ℕ
  pub length : ℕ
  pub offset : ℕ
  pub permissions : ℕ
  pub type : ℕ
  pub valid : Bool
  pub unsealed : Bool

-- A pycheritrace register_set.
pub record TraceRegs : Type 0 where
  pub valid_gprs : ℕ → Bool
  pub gpr : ℕ → ℕ
  -- Read at the index -1 too, which stands for no register.
  pub valid_caps : ℤ → Bool
  pub cap_reg : ℕ → CapRegister
  pub valid_hwcaps : ℕ → Bool
  pub cap_hwreg : ℕ → CapRegister

-- A pycheritrace trace_entry.
pub record Entry : Type 0 where
  pub cycles : ℕ
  pub pc : ℕ
  pub exception : ℕ
  pub is_load : Bool
  pub is_store : Bool
  pub memory_address : ℕ
  pub is_kernel : Bool

-- A pycheritrace operand_info.
pub record OperandInfo : Type 0 where
  pub is_register : Bool
  pub is_immediate : Bool
  pub register_number : ℕ
  pub immediate : ℤ

-- The Python values that an operand or a register of the parser holds.
pub data Value : Type 0 where
  nothing : Value
  num : ℤ → Value
  cap : CapRegister → Value
  vertex : ℕ → Value

pub record Operand : Type 0 where
  pub info : OperandInfo
  pub is_destination : Bool

pub record Instruction : Type 0 where
  pub opcode : String
  pub infos : List OperandInfo
  pub entry : Entry
  pub regset : TraceRegs
  pub prev_regset : TraceRegs
  -- `has_delay_slot` of the previous instruction, if there is one.
  pub prev_inst : Option Bool

-- `Operand.is_capability`
unfoldable pub is_capability : Operand → Bool
is_capability op = op.info.is_register && leb 64 op.info.register_number

-- `Operand.caphw_index`
unfoldable pub caphw_index : Operand → ℤ
caphw_index op =
    if not (op.info.is_register && leb 96 op.info.register_number)
    then negsuc 0
    else pos (op.info.register_number - 96)

-- `Operand.cap_index`
unfoldable pub cap_index : Operand → ℤ
cap_index op =
    if not (op.info.is_register && ltb op.info.register_number 96 && leb 64 op.info.register_number)
    then negsuc 0
    else pos (op.info.register_number - 64)

-- `Operand.gpr_index`
unfoldable pub gpr_index : Operand → ℤ
gpr_index op =
    if not (op.info.is_register && ltb op.info.register_number 32)
    then negsuc 0
    else pos op.info.register_number

-- The branch of `Operand.value` for a register.
unfoldable pub register_value : ℕ → TraceRegs → Value
register_value n regs =
    if n == 0
    then num (pos 0)
    else if ltb n 32
    then (if regs.valid_gprs (n - 1) then num (pos (regs.gpr (n - 1))) else nothing)
    else if ltb n 64
    then num (pos 0)
    else if ltb n 96
    then (if regs.valid_caps (pos (n - 64)) then cap (regs.cap_reg (n - 64)) else nothing)
    else (if regs.valid_hwcaps (n - 96) then cap (regs.cap_hwreg (n - 96)) else nothing)

-- `Operand.value`: a destination is read after the instruction, a source before it.
unfoldable pub value : Instruction → Operand → Result Value
unfolding register_value
value inst op =
    if op.info.is_immediate
    then ok (num op.info.immediate)
    else if op.info.is_register
    then ok (
        register_value op.info.register_number
          (if op.is_destination then inst.regset else inst.prev_regset))
    else err value_error

-- `Instruction._op_n`: the target operand is the first.
unfoldable pub op_n : ℕ → Instruction → Option Operand
op_n n inst = elim (get_elem? inst.infos n) [
  | none ↦ none
  | some info ↦ some (record { info = info; is_destination = n == 0 })
]

-- `inst.operands[n]`
unfoldable pub operand_at : ℕ → Instruction → Result Operand
unfolding op_n
operand_at n inst = elim (op_n n inst) [ none ↦ err index_error | some op ↦ ok op ]

-- `inst.op<n>.attr`: an attribute of None raises.
unfoldable pub operand : ℕ → Instruction → Result Operand
unfolding op_n
operand n inst = elim (op_n n inst) [ none ↦ err attribute_error | some op ↦ ok op ]

-- `Instruction.in_delay_slot`
unfoldable pub in_delay_slot : Instruction → Bool
in_delay_slot inst = elim inst.prev_inst [ none ↦ false | some b ↦ b ]

-- `Instruction.has_exception`
unfoldable pub has_exception : Instruction → Bool
has_exception inst = not (inst.entry.exception == 31)
