-- ===== src/Parser/Nodes.antt =====
-- `from_operand` of provenance/model.py, and `make_root_node` and `make_node` of the class
-- PointerProvenanceSubparser of provenance/parser/sub_mips.py.
use cheriplot.Base.{
  ℕ, ◌-◌, Bool, true, false, not, ◌&&◌, ◌||◌, Option, none, some, bit_and, ltb, ◌==◌, if◌then◌else◌,
  update,
}
use cheriplot.Base.Int.{ℤ, pos}
use cheriplot.Base.Errors.{
  Result, ok, err, missing_parent, unexpected_operation, value_error, type_error, M, pure, raise,
  gets, modify, of_result, ◌>>=◌, ◌>>◌,
}
use cheriplot.Graph.{GraphTool}
use cheriplot.Trace.{
  Entry, Instruction, Operand, Value, vertex, nothing, is_capability, cap_index, operand_at, value,
}
use cheriplot.Model.Cap.{CheriCap, cheri_cap, bound}
use cheriplot.Model.Vertex.{ProvenanceVertexData, CheriNodeOrigin, root, fresh_data}
use cheriplot.Model.Manager.{prov}
use cheriplot.Parser.State.{Core, as_cap, prov_data}
use cheriplot.Parser.RegisterSet.{get_reg, has_reg}

-- `ProvenanceVertexData.from_operand`
unfoldable pub from_operand : Instruction → Operand → Result ProvenanceVertexData
from_operand inst op =
    if not op.info.is_register || not (is_capability op)
    then err value_error
    else elim (value inst op) [
      | err e ↦ err e
      | ok v ↦ elim (cheri_cap v) [
        | err e ↦ err e
        | ok c ↦ ok (record fresh_data {
          cap = some (record c { t_alloc = pos inst.entry.cycles });
          pc = some inst.entry.pc;
          is_kernel = inst.entry.is_kernel;
        })
      ]
    ]

-- `a < b` of two values that may be None.
unfoldable pub opt_lt : Option ℕ → Option ℕ → Result Bool
opt_lt (some a) (some b) = ok (ltb a b)
opt_lt none _ = err type_error
opt_lt (some a) none = err type_error

-- `a & ~b`, the bits of `a` that `b` lacks, as a test.
unfoldable pub has_extra : Option ℕ → Option ℕ → Result Bool
has_extra (some a) (some b) = ok (not (a - bit_and a b == 0))
has_extra none _ = err type_error
has_extra (some a) none = err type_error

-- `x or y`, where `y` may raise.
abbrev pub or_else : Result Bool → Result Bool → Result Bool
or_else (ok true) y = ok true
or_else (ok false) y = y
or_else (err e) y = err e

-- The test of the monotonicity check in `make_node`.
unfoldable pub is_violation : CheriCap → CheriCap → Result Bool
unfolding opt_lt has_extra
is_violation parent child =
    if parent.valid && child.valid
    then or_else (opt_lt child.base parent.base) (
        or_else (opt_lt (bound parent) (bound child))
          (has_extra child.permissions parent.permissions))
    else ok false

module _ ⦃gt : GraphTool⦄ where
  -- `vertex = graph.add_vertex(); data[vertex] = d; layer_prov[vertex] = True`
  unfoldable pub add_prov_vertex : ProvenanceVertexData → Core → Core
  add_prov_vertex d s =
      let v = gt.num_vertices s.pgm.graph in
      record s {
        pgm = record s.pgm {
          graph = gt.add_vertex s.pgm.graph;
          data_of = update s.pgm.data_of v (prov d);
          layer_prov = update s.pgm.layer_prov v true;
        };
      }

  -- The data of the root that `make_root_node` creates.
  unfoldable pub root_data : Entry → CheriCap → ℕ → ProvenanceVertexData
  root_data entry c time = record fresh_data {
    cap = some (record c { t_alloc = pos time });
    pc = some entry.pc;
    origin = root;
    is_kernel = entry.is_kernel;
  }

  -- The callers that pass a `pc` pass that of the entry.
  unfoldable pub make_root_node : Entry → Value → ℕ → M Core ℕ
  unfolding add_prov_vertex root_data
  make_root_node entry v time = do
    c ← of_result (cheri_cap v)
    n ← gets (λ s. gt.num_vertices s.pgm.graph)
    modify (add_prov_vertex (root_data entry c time))
    pure n

  -- The source register of `make_node` and the value that it should hold.
  unfoldable pub node_source : Instruction → Option ℤ → M Core (ℤ × Value)
  unfolding get_reg
  node_source inst none = do
    op ← of_result (operand_at 1 inst)
    v ← of_result (value inst op)
    pure (cap_index op, v)
  node_source inst (some index) = do
    node ← get_reg index
    pure (index, elim node [ none ↦ nothing | some v ↦ vertex v ])

  -- The check of `make_node` against the parent, and the new vertex with its edge.
  unfoldable pub derive_from : ProvenanceVertexData → Option ℕ → M Core ℕ
  unfolding is_violation add_prov_vertex
  derive_from d none = raise missing_parent
  derive_from d (some u) = do
    pdata ← prov_data u
    pcap ← of_result (as_cap pdata.cap)
    dcap ← of_result (as_cap d.cap)
    bad ← of_result (is_violation pcap dcap)
    if bad then raise unexpected_operation else (do
      v ← gets (λ s. gt.num_vertices s.pgm.graph)
      modify (add_prov_vertex d)
      modify (λ s. record s { pgm = record s.pgm { graph = gt.add_edge s.pgm.graph u v } })
      pure v)

  unfoldable pub make_node : Instruction → CheriNodeOrigin → Option ℤ → M Core ℕ
  unfolding node_source from_operand derive_from
  make_node inst origin src_reg_index = do
    dst ← of_result (operand_at 0 inst)
    fresh ← of_result (from_operand inst dst)
    let d = record fresh { origin = origin }
    src ← node_source inst src_reg_index
    found ← has_reg src.0 src.1 inst.entry.cycles false
    if not found then raise missing_parent else (do parent ← get_reg src.0; derive_from d parent)
