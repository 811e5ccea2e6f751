-- ===== src/Parser/Worker.antt =====
-- The state of a worker: the shared part, and the fields of the five subparsers of
-- provenance/parser/sub_mips.py that CheriMipsModelParser puts together.
-- A deferred callback, which the source keeps as a closure, is the name of the function and its
-- arguments.
use cheriplot.Base.{ℕ, Bool, Option, List}
use cheriplot.Base.Int.{ℤ}
use cheriplot.Base.Errors.{ok, err, M}
use cheriplot.Graph.{GraphTool}
use cheriplot.Trace.{Instruction, Value}
use cheriplot.Parser.State.{Core}

-- The callbacks of PointerProvenanceSubparser are those with `maybe_call=True`.
pub data Callback : Type 0 where
  csetbounds cfromptr candperm cmovn cap_arith mem_store clc csc : Instruction → Callback
  dereference : Instruction → ℤ → Callback
  exception : Instruction → Callback
  branch_cjr branch_cjalr : Instruction → Callback
  call_cjr call_cjalr call_jr call_jalr : Instruction → Callback

-- The fields of CapabilityBranchSubparser.
pub record BranchState : Type 0 where
  pub saved_pcc : Option ℕ
  pub saved_addr : Option ℕ
  pub save_first_mfc : Bool
  pub initial_epcc : Option ℕ
  pub initial_badvaddr : Value
  pub saved_epcc_out_neighbours : Option (List ℕ)
  pub branch_cbk : Option Callback

-- The fields of CallgraphSubparser. The top of the stack is the head of the list.
pub record CallState : Type 0 where
  pub call_stack : List (ℕ × Option ℤ)
  pub root : ℕ
  pub exception_depth : ℤ
  pub in_syscall : Bool
  pub landing_addr : Option ℤ
  pub call_cbk : Option Callback
  pub call_cbk_addr : Option ℕ

module _ ⦃gt : GraphTool⦄ where
  pub record Worker : Type 0 where
    pub core : Core
    -- PointerProvenanceSubparser
    pub capability_size : ℕ
    pub exec_maybe : List Callback
    pub exec_maybe_addr : List ℕ
    pub exec_delay : List Callback
    pub paused : Bool
    -- InitialStackAccessSubparser
    pub first_eret : Bool
    -- SyscallSubparser
    pub syscall_depth : ℤ
    pub branch : BranchState
    pub calls : CallState

  -- A step of the shared part.
  abbrev pub lift : {A : Type 0} → M Core A → M Worker A
  lift m w = elim (m w.core) [ ok (a, c) ↦ ok (a, record w { core = c }) | err e ↦ err e ]
