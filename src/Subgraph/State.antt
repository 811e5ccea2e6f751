-- ===== src/Subgraph/State.antt =====
-- The result of a worker, the context of the merge, and the fields of MergePartialSubgraph.
use cheriplot.Base.{ℕ, Bool, Option, none, some, List, update, Dict}
use cheriplot.Base.Int.{ℤ}
use cheriplot.Base.Errors.{M, of_result}
use cheriplot.Graph.{GraphTool}
use cheriplot.Model.Vertex.{ProvenanceVertexData}
use cheriplot.Model.Manager.{Pgm, VertexData, set_data}
use cheriplot.Parser.State.{as_prov}

-- The result of the subparser of capability branches.
pub record PccFixup : Type 0 where
  pub saved_addr : Option ℕ
  pub saved_pcc : Option ℕ
  pub epcc : Option ℕ
  pub badvaddr : Option ℕ

-- The result of the subparser of system calls.
pub record SyscallResult : Type 0 where
  pub active : Bool
  pub pc_eret : Option ℕ
  pub eret_cap : Option ℕ
  pub eret_addr : Option ℕ

-- The result of the call graph subparser. The last frame may be None; behind a step it is an entry of
-- `copy_vertex_map`, where the inner none is -1.
pub record CallgraphResult : Type 0 where
  pub root : Option ℕ
  pub last_frame : Option (Option ℕ)

module _ ⦃gt : GraphTool⦄ where
  -- The dict that a worker returns.
  pub record WorkerResult : Type 0 where
    pub pgm : Pgm
    pub reg_nodes : List (Option ℕ)
    pub initial_reg_nodes : List ℕ
    pub vertex_map : Dict ℕ
    pub initial_map : Dict ℕ
    pub pcc_fixup : PccFixup
    pub syscall : SyscallResult
    pub callgraph : CallgraphResult
    pub cycles_start : ℕ
    pub cycles_end : ℕ

  -- MergePartialSubgraphContext: the merged graph and the end of the step before. The fields that are
  -- None before the first step are not read in it.
  pub record Context : Type 0 where
    pub main : Pgm
    pub prev_cycles_end : ℤ
    pub prev_regset : List (Option ℕ)
    pub prev_vmap : Dict ℕ
    pub prev_pcc_fixup : PccFixup
    pub prev_syscall : SyscallResult
    pub prev_callgraph : CallgraphResult
    pub step_idx : ℕ

  -- MergePartialSubgraph with its context and the result that it merges. An entry of -1 is none.
  -- The merged graph shares the data of a copied vertex with the subgraph: `shared` says where.
  pub record Merge : Type 0 where
    pub context : Context
    pub curr : WorkerResult
    pub copy_vertex_map : ℕ → Option ℕ
    pub omit_vertex_map : ℕ → Bool
    pub copy_edge_map : ℕ → Bool
    pub shared : ℕ → Option ℕ

  abbrev pub main_pgm : Merge → Pgm
  main_pgm s = s.context.main

  abbrev pub sub_pgm : Merge → Pgm
  sub_pgm s = s.curr.pgm

  abbrev pub put_main : Pgm → Merge → Merge
  put_main p s = record s { context = record s.context { main = p } }

  abbrev pub sub_prov : ℕ → M Merge ProvenanceVertexData
  sub_prov u s = of_result (as_prov (s.curr.pgm.data_of u)) s

  abbrev pub main_prov : ℕ → M Merge ProvenanceVertexData
  main_prov v s = of_result (as_prov (s.context.main.data_of v)) s

  -- A field of the object `subgraph.vp.data[u]` is assigned.
  unfoldable pub put_sub : ℕ → VertexData → Merge → Merge
  put_sub u d s =
      let curr = record s.curr { pgm = set_data u d s.curr.pgm } in
      record s {
        curr = curr;
        context = elim (s.shared u) [
          | none ↦ s.context
          | some v ↦ record s.context { main = set_data v d s.context.main }
        ];
      }

  abbrev pub put_copy : ℕ → Option ℕ → Merge → Merge
  put_copy u v s = record s { copy_vertex_map = update s.copy_vertex_map u v }
