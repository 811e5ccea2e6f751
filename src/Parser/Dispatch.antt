-- ===== src/Parser/Dispatch.antt =====
-- `get_callbacks` of core/parser/base.py for the subparsers of CheriMipsModelParser, with the
-- instruction classes of core/parser/mips.py, and the body of `_scan`.
-- The callbacks of an opcode stand in the order of the subparsers and, in one, by name.
use cheriplot.Base.{String, Bool, true, false, List, [], ◌∷◌, ◌++◌, str_eq, if◌then◌else◌}
use cheriplot.Base.Errors.{M, pure, ◌>>◌}
use cheriplot.Graph.{GraphTool}
use cheriplot.Trace.{Instruction, in_delay_slot, has_exception}
use cheriplot.Parser.Worker.{Worker}
use cheriplot.Parser.Hardware.{
  scan_creadhwr, scan_cwritehwr, scan_cseal, scan_cunseal, scan_cclearregs, scan_cgetnull,
  scan_cgetpcc, scan_cgetpccsetoffset,
}
use cheriplot.Parser.Clear.{scan_cclearhi, scan_cclearlo}
use cheriplot.Parser.Derive.{scan_csetbounds, scan_cfromptr, scan_candperm}
use cheriplot.Parser.Arith.{scan_cap_arith, scan_cmovn, scan_cmovz}
use cheriplot.Parser.Memory.{scan_cap_load, scan_cap_store, scan_mem_store, scan_clc, scan_csc}
use cheriplot.Parser.Branch.{
  branch_dmfc0, branch_eret, branch_cjr, branch_cjalr, branch_delay_slot, branch_ccall,
  branch_creturn,
}
use cheriplot.Parser.Syscall.{syscall_exception, syscall_eret, stack_eret}
use cheriplot.Parser.Calls.{
  call_delay_slot, scan_addiu, call_cjalr, call_cjr, call_jalr, call_jr, call_exception,
  call_syscall, call_eret,
}
use cheriplot.Parser.Deferred.{run_callback, prov_dmfc0}

abbrev pub one_of : String → List String → Bool
one_of s [] = false
one_of s (t ∷ ts) = if str_eq s t then true else one_of s ts

abbrev pub cap_load_opcodes : List String
cap_load_opcodes =
    "cld" ∷ "cldr" ∷ "cldi" ∷ "clc" ∷ "clcr" ∷ "clci" ∷ "clb" ∷ "clbr" ∷ "clbi" ∷ "clbu" ∷ "clbur"
    ∷ "clbui" ∷ "clh" ∷ "clhr" ∷ "clhi" ∷ "clhu" ∷ "clhur" ∷ "clhui" ∷ "clw" ∷ "clwr" ∷ "clwi"
    ∷ "clwu" ∷ "clwur" ∷ "clwui" ∷ "cllc" ∷ "clld" ∷ "cllb" ∷ "cllbu" ∷ "cllh" ∷ "cllhu" ∷ "cllw"
    ∷ "cllwu" ∷ "clcbi" ∷ []

abbrev pub cap_store_opcodes : List String
cap_store_opcodes =
    "csb" ∷ "csbr" ∷ "csbi" ∷ "csh" ∷ "cshr" ∷ "cshi" ∷ "csw" ∷ "cswr" ∷ "cswi" ∷ "csd" ∷ "csdr"
    ∷ "csdi" ∷ "csc" ∷ "cscr" ∷ "csci" ∷ "cscc" ∷ "cscb" ∷ "csch" ∷ "cscw" ∷ "cscd" ∷ "cscbi" ∷ []

abbrev pub cap_arith_opcodes : List String
cap_arith_opcodes = "cincoffset" ∷ "csetoffset" ∷ "csub" ∷ "cmove" ∷ []

module _ ⦃gt : GraphTool⦄ where
  abbrev pub Scan : Type 0
  Scan = Instruction → M Worker (Unit {0})

  -- The entries for a name of its own, `scan_<opcode>`.
  abbrev pub named_callbacks : List (String × List Scan)
  named_callbacks =
      ("creadhwr", scan_creadhwr ∷ [])
      ∷ ("cwritehwr", scan_cwritehwr ∷ [])
      ∷ ("cseal", scan_cseal ∷ [])
      ∷ ("cunseal", scan_cunseal ∷ [])
      ∷ ("cclearregs", scan_cclearregs ∷ [])
      ∷ ("cclearhi", scan_cclearhi ∷ [])
      ∷ ("cclearlo", scan_cclearlo ∷ [])
      ∷ ("cgetnull", scan_cgetnull ∷ [])
      ∷ ("cgetpcc", scan_cgetpcc ∷ [])
      ∷ ("cgetpccsetoffset", scan_cgetpccsetoffset ∷ [])
      ∷ ("csetbounds", (λ i. scan_csetbounds i false) ∷ [])
      ∷ ("cfromptr", (λ i. scan_cfromptr i false) ∷ [])
      ∷ ("cfromddc", (λ i. scan_cfromptr i false) ∷ [])
      ∷ ("candperm", (λ i. scan_candperm i false) ∷ [])
      ∷ ("cmovn", (λ i. scan_cmovn i false) ∷ [])
      ∷ ("cmovz", (λ i. scan_cmovz i false) ∷ [])
      ∷ ("clc", (λ i. scan_clc i false) ∷ [])
      ∷ ("clcr", (λ i. scan_clc i false) ∷ [])
      ∷ ("clci", (λ i. scan_clc i false) ∷ [])
      ∷ ("clcbi", (λ i. scan_clc i false) ∷ [])
      ∷ ("csc", (λ i. scan_csc i false) ∷ [])
      ∷ ("cscr", (λ i. scan_csc i false) ∷ [])
      ∷ ("csci", (λ i. scan_csc i false) ∷ [])
      ∷ ("cscbi", (λ i. scan_csc i false) ∷ [])
      ∷ ("dmfc0", prov_dmfc0 ∷ branch_dmfc0 ∷ [])
      ∷ ("eret", stack_eret ∷ syscall_eret ∷ branch_eret ∷ call_eret ∷ [])
      ∷ ("ccall", branch_ccall ∷ [])
      ∷ ("creturn", branch_creturn ∷ [])
      ∷ ("cjalr", branch_cjalr ∷ call_cjalr ∷ [])
      ∷ ("cjr", branch_cjr ∷ call_cjr ∷ [])
      ∷ ("jalr", call_jalr ∷ [])
      ∷ ("jr", call_jr ∷ [])
      ∷ ("addiu", scan_addiu ∷ [])
      ∷ ("syscall", call_syscall ∷ [])
      ∷ []

  abbrev pub named : String → List (String × List Scan) → List Scan
  named s [] = []
  named s ((t, ks) ∷ rest) = if str_eq s t then ks else named s rest

  -- The entries for the class of the instruction, which stand before the others.
  abbrev pub class_callbacks : String → List Scan
  class_callbacks s =
      if one_of s cap_arith_opcodes
      then (λ i. scan_cap_arith i false) ∷ []
      else (if one_of s cap_load_opcodes
          then scan_cap_load ∷ []
          else (if one_of s cap_store_opcodes then scan_cap_store ∷ [] else []))

  unfoldable pub opcode_callbacks : String → List Scan
  opcode_callbacks s = class_callbacks s ++ named s named_callbacks

  -- `get_callbacks`: the opcode's, then those of a store, a delay slot and an exception.
  unfoldable pub get_callbacks : Instruction → List Scan
  unfolding opcode_callbacks
  get_callbacks inst =
      opcode_callbacks inst.opcode
      ++ ((if inst.entry.is_store then (λ i. scan_mem_store i false) ∷ [] else [])
          ++ ((if in_delay_slot inst
                then branch_delay_slot run_callback ∷ call_delay_slot run_callback ∷ []
                else [])
              ++ (if has_exception inst then syscall_exception ∷ call_exception ∷ [] else [])))

  abbrev pub run_scans : List Scan → Instruction → M Worker (Unit {0})
  run_scans [] inst = pure tt
  run_scans (k ∷ ks) inst = do k inst; run_scans ks inst

  -- The callbacks of one trace entry.
  unfoldable pub scan_entry : Instruction → M Worker (Unit {0})
  unfolding get_callbacks
  scan_entry inst = run_scans (get_callbacks inst) inst

  -- The entries of a chunk of the trace, in order.
  unfoldable pub scan_trace : List Instruction → M Worker (Unit {0})
  unfolding scan_entry
  scan_trace [] = pure tt
  scan_trace (i ∷ is_) = do scan_entry i; scan_trace is_
