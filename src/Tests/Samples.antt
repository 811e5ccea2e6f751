-- ===== src/Tests/Samples.antt =====
-- The inputs of the tests. The graph is the list of edges of Graph/Lists.
use cheriplot.Base.{[], ◌∷◌, none, true, false, ℕ, String, if◌then◌else◌, List, ◌==◌, ◌+◌, ◌*◌}
use cheriplot.Graph.Lists.{list_graph}
use cheriplot.Model.Manager.{VertexData}
use cheriplot.Trace.{TraceRegs, CapRegister, Entry, OperandInfo, Instruction, nothing}
use cheriplot.Base.Errors.{Result, ok, err}
use cheriplot.Parser.Worker.{Worker}
use cheriplot.Parser.State.{Core}
use cheriplot.Parser.Initial.{new_pgm}
use cheriplot.Model.Vertex.{call_data}
use cheriplot.Base.Int.{pos}

-- A valid capability over `length` bytes from 0x1000 on.
abbrev pub sample_cap : ℕ → CapRegister
sample_cap length = record {
  base = 0x1000;
  length = length;
  offset = 0;
  permissions = 7;
  type = 0;
  valid = true;
  unsealed = false;
}

-- Register 1 spans 0x100 bytes, the others span 0x40.
abbrev pub sample_regs : TraceRegs
sample_regs = record {
  valid_gprs = λ n. true;
  gpr = λ n. 0x1000;
  valid_caps = λ n. true;
  cap_reg = λ n. if n == 1 then sample_cap 0x100 else sample_cap 0x40;
  valid_hwcaps = λ n. true;
  cap_hwreg = λ n. sample_cap 0x100;
}

abbrev pub sample_entry : ℕ → Entry
sample_entry cycles = record {
  cycles = cycles;
  pc = 0x1000 + 4 * cycles;
  exception = 31;
  is_load = false;
  is_store = false;
  memory_address = 0;
  is_kernel = false;
}

abbrev pub cap_operand : ℕ → OperandInfo
cap_operand n = record {
  is_register = true;
  is_immediate = false;
  register_number = n + 64;
  immediate = pos 0;
}

abbrev pub sample_inst : String → List OperandInfo → ℕ → Instruction
sample_inst opcode infos cycles = record {
  opcode = opcode;
  infos = infos;
  entry = sample_entry cycles;
  regset = sample_regs;
  prev_regset = sample_regs;
  prev_inst = none;
}

abbrev pub end_of_run : Result (Unit {0} × Worker) → Worker → Worker
end_of_run (ok (a, w)) v = w
end_of_run (err e) v = v

abbrev pub core_of : {A : Type 0} → Result (A × Core) → Core → Core
core_of (ok (a, s)) t = s
core_of (err e) t = t

-- A worker with one frame and no registers.
abbrev pub small_worker : Worker
small_worker = record {
  core = record {
    pgm = record new_pgm {
      graph = record { vertices = 1; edges = [] };
      data_of = λ v. VertexData.call (call_data none);
    };
    reg_nodes = [];
    initial_reg_nodes = [];
    pause_recovered = [];
    vertex_map = [];
    initial_map = [];
  };
  capability_size = 32;
  exec_maybe = [];
  exec_maybe_addr = [];
  exec_delay = [];
  paused = false;
  first_eret = false;
  syscall_depth = pos 0;
  branch = record {
    saved_pcc = none;
    saved_addr = none;
    save_first_mfc = true;
    initial_epcc = none;
    initial_badvaddr = nothing;
    saved_epcc_out_neighbours = none;
    branch_cbk = none;
  };
  calls = record {
    call_stack = (0, none) ∷ [];
    root = 0;
    exception_depth = pos 0;
    in_syscall = false;
    landing_addr = none;
    call_cbk = none;
    call_cbk_addr = none;
  };
}

abbrev pub gpr_operand : ℕ → OperandInfo
gpr_operand n = record {
  is_register = true;
  is_immediate = false;
  register_number = n;
  immediate = pos 0;
}
