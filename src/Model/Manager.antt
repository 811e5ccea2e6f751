-- ===== src/Model/Manager.antt =====
-- The class ProvenanceGraphManager of provenance/model.py: the graph and its property maps.
-- A property map is a function of the index, read and written as a mapping.
use cheriplot.Base.{ℕ, Bool, Option, List, update}
use cheriplot.Graph.{GraphTool}
use cheriplot.Model.Cap.{CheriCap}
use cheriplot.Model.Vertex.{ProvenanceVertexData, CallVertexData}

-- The `data` property: None until it is assigned, then an object whose class is the layer's.
pub data VertexData : Type 0 where
  absent : VertexData
  prov : ProvenanceVertexData → VertexData
  call : CallVertexData → VertexData

pub data EdgeOperation : Type 0 where
  unknown call syscall call_target visible return : EdgeOperation

module _ ⦃gt : GraphTool⦄ where
  pub record Pgm : Type 0 where
    pub graph : gt.Graph
    pub data_of : ℕ → VertexData
    pub layer_prov : ℕ → Bool
    pub layer_call : ℕ → Bool
    pub edge_operation : ℕ → EdgeOperation
    pub edge_time : ℕ → ℕ
    pub edge_addr : ℕ → ℕ
    pub edge_regs : ℕ → List ℕ
    pub stack : Option CheriCap

  -- `pgm.data[v] = d`
  abbrev pub set_data : ℕ → VertexData → Pgm → Pgm
  set_data v d pgm = record pgm { data_of = update pgm.data_of v d }
