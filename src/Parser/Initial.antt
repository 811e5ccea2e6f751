-- ===== src/Parser/Initial.antt =====
-- The state that a worker starts with: the constructors of ProvenanceGraphManager
-- (provenance/model.py), RegisterSet (provenance/parser/base.py) and of the subparsers
-- (provenance/parser/sub_mips.py).
use cheriplot.Base.{
  [], ◌∷◌, none, some, true, false, ℕ, List, Option, suc, update, zero, ◌+◌, replicate, length,
}
use cheriplot.Graph.{GraphTool}
use cheriplot.Model.Vertex.{ProvenanceVertexData, fresh_data, call_data, partial}
use cheriplot.Model.Manager.{VertexData, Pgm, absent, prov, EdgeOperation}
use cheriplot.Parser.Frames.{add_call_vertex}
use cheriplot.Parser.State.{Core}
use cheriplot.Parser.Worker.{Worker}
use cheriplot.Model.Cap.{empty_cap}
use cheriplot.Parser.RegisterSet.{cap_regfile_size}
use cheriplot.Base.Int.{pos}
use cheriplot.Trace.{nothing}

-- The data that the loop of `RegisterSet.__init__` gives to each vertex.
abbrev pub partial_data : ProvenanceVertexData
partial_data = record fresh_data { cap = some empty_cap; origin = partial }

-- The loop, on the `data` property.
abbrev pub fill : List ℕ → (ℕ → VertexData) → ℕ → VertexData
fill [] f = f
fill (n ∷ ns) f = fill ns (update f n (prov partial_data))

-- The `n` indices from `k` on.
abbrev pub range : ℕ → ℕ → List ℕ
range k zero = []
range k (suc n) = k ∷ range (suc k) n

-- `list(vertices)`
abbrev pub as_nodes : List ℕ → List (Option ℕ)
as_nodes [] = []
as_nodes (v ∷ vs) = some v ∷ as_nodes vs

module _ ⦃gt : GraphTool⦄ where
  -- `graph.add_vertex(n)`
  abbrev pub add_vertices : ℕ → gt.Graph → gt.Graph
  add_vertices zero g = g
  add_vertices (suc n) g = add_vertices n (gt.add_vertex g)

  -- `ProvenanceGraphManager.__init__`
  abbrev pub new_pgm : Pgm
  new_pgm = record {
    graph = gt.empty;
    data_of = λ v. absent;
    layer_prov = λ v. false;
    layer_call = λ v. false;
    edge_operation = λ e. EdgeOperation.unknown;
    edge_time = λ e. 0;
    edge_addr = λ e. 0;
    edge_regs = λ e. [];
    stack = none;
  }

  -- `RegisterSet.__init__` and `VertexMemoryMap.__init__`
  unfoldable pub new_core : Pgm → Core
  new_core p =
      let vertices = range (gt.num_vertices p.graph) (cap_regfile_size + 1) in
      record {
        pgm = record p {
          graph = add_vertices (cap_regfile_size + 1) p.graph;
          data_of = fill vertices p.data_of;
        };
        reg_nodes = as_nodes vertices;
        initial_reg_nodes = vertices;
        pause_recovered = replicate (length vertices) true;
        vertex_map = [];
        initial_map = [];
      }

  -- The constructors of the subparsers, in the order of `CheriMipsModelParser.__init__`.
  unfoldable pub new_worker : ℕ → Worker
  unfolding new_core add_call_vertex
  new_worker capability_size =
      let core = new_core new_pgm in
      let root = gt.num_vertices core.pgm.graph in
      record {
        core = add_call_vertex (call_data none) core;
        capability_size = capability_size;
        exec_maybe = [];
        exec_maybe_addr = [];
        exec_delay = [];
        paused = false;
        first_eret = false;
        syscall_depth = pos 0;
        branch = record {
          saved_pcc = none;
          saved_addr = none;
          save_first_mfc = true;
          initial_epcc = none;
          initial_badvaddr = nothing;
          saved_epcc_out_neighbours = none;
          branch_cbk = none;
        };
        calls = record {
          call_stack = (root, none) ∷ [];
          root = root;
          exception_depth = pos 0;
          in_syscall = false;
          landing_addr = none;
          call_cbk = none;
          call_cbk_addr = none;
        };
      }
