-- ===== src/Visit/State.antt =====
-- What a visitor of provenance/visit reads and writes: the graph manager, the properties of the
-- graph, the named masks of its vertices, and the mask that the visitor itself makes.
use cheriplot.Base.{
  ℕ, String, Bool, true, false, Option, none, some, ltb, leb, str_eq, if◌then◌else◌, update,
}
use cheriplot.Base.Int.{ℤ}
use cheriplot.Base.Errors.{Result, ok, err, attribute_error, type_error, M, gets, of_result}
use cheriplot.Graph.{GraphTool}
use cheriplot.Model.Cap.{CheriCap}
use cheriplot.Model.Vertex.{ProvenanceVertexData, CallVertexData}
use cheriplot.Model.Manager.{Pgm}
use cheriplot.Parser.State.{as_prov, as_call, as_cap}

-- `x and y`, where `y` may raise.
abbrev pub and_also : Result Bool → Result Bool → Result Bool
and_also (ok true) y = y
and_also (ok false) y = ok false
and_also (err e) y = err e

-- `x >= n` and `x <= n` of a value that may be None.
abbrev pub opt_ge : Option ℕ → ℕ → Result Bool
opt_ge none n = err type_error
opt_ge (some x) n = ok (leb n x)

abbrev pub opt_le : Option ℕ → ℕ → Result Bool
opt_le none n = err type_error
opt_le (some x) n = ok (leb x n)

abbrev pub opt_lt_num : Option ℕ → ℕ → Result Bool
opt_lt_num none n = err type_error
opt_lt_num (some x) n = ok (ltb x n)

module _ ⦃gt : GraphTool⦄ where
  pub record Visit : Type 0 where
    pub pgm : Pgm
    -- `pgm.graph.gp`, the graph properties that are numbers.
    pub gp : String → Option ℤ
    -- `pgm.graph.vp`, the masks by their names, and which names there are.
    pub vp : String → ℕ → Bool
    pub has_vp : String → Bool
    -- `self.vertex_mask` of a visitor that does not name its mask.
    pub vertex_mask : ℕ → Bool

  abbrev pub in_layer_prov : ℕ → M Visit Bool
  in_layer_prov v = gets (λ s. s.pgm.layer_prov v)

  abbrev pub prov_data : ℕ → M Visit ProvenanceVertexData
  prov_data v s = of_result (as_prov (s.pgm.data_of v)) s

  abbrev pub call_data : ℕ → M Visit CallVertexData
  call_data v s = of_result (as_call (s.pgm.data_of v)) s

  -- `data[v].cap`, of which an attribute is read.
  abbrev pub cap_of : ProvenanceVertexData → M Visit CheriCap
  cap_of d = of_result (as_cap d.cap)

  -- `graph.gp.<name>`
  abbrev pub graph_property : String → M Visit ℤ
  graph_property name s = elim (s.gp name) [ none ↦ err attribute_error | some z ↦ ok (z, s) ]

  -- `graph.vp.<name>[v]`
  abbrev pub vertex_property : String → ℕ → M Visit Bool
  vertex_property name v s = if s.has_vp name then ok (s.vp name v, s) else err attribute_error

  -- `self.vertex_mask[v] = b` of a visitor that masks, and of one that names its mask.
  abbrev pub put_mask : ℕ → Bool → Visit → Visit
  put_mask v b s = record s { vertex_mask = update s.vertex_mask v b }

  abbrev pub put_named : String → ℕ → Bool → Visit → Visit
  put_named name v b s = record s {
    vp = λ n u. if str_eq n name then update (s.vp n) v b u else s.vp n u;
  }

  -- `new_vertex_property`, with the name it is given, filled with False.
  abbrev pub new_named : String → Visit → Visit
  new_named name s = record s {
    vp = λ n u. if str_eq n name then false else s.vp n u;
    has_vp = λ n. if str_eq n name then true else s.has_vp n;
  }

  -- Both ends of an edge lie in the provenance layer, or in the call layer.
  abbrev pub in_prov : ℕ → Visit → Bool
  in_prov e s =
      if s.pgm.layer_prov (gt.source s.pgm.graph e)
      then s.pgm.layer_prov (gt.target s.pgm.graph e)
      else false

  abbrev pub in_call : ℕ → Visit → Bool
  in_call e s =
      if s.pgm.layer_call (gt.source s.pgm.graph e)
      then s.pgm.layer_call (gt.target s.pgm.graph e)
      else false
