-- ===== src/Parser/State.antt =====
-- The state that the register set, the vertex memory map and the subparsers of one worker share
-- (provenance/parser/base.py), and Python's reads and writes of it.
use cheriplot.Base.{
  ℕ, suc, ◌-◌, Bool, Option, none, some, List, ltb, if◌then◌else◌, Dict, length, ◌≡◌,
}
use cheriplot.Base.Int.{ℤ, pos, negsuc}
use cheriplot.Base.Errors.{
  Result, ok, err, attribute_error, type_error, index_error, M, raise, gets, modify, of_result,
  ◌>>=◌,
}
use cheriplot.Graph.{GraphTool}
use cheriplot.Model.Cap.{CheriCap}
use cheriplot.Model.Vertex.{ProvenanceVertexData, CallVertexData}
use cheriplot.Model.Manager.{Pgm, VertexData, absent, prov, call, set_data}

-- A list index: a negative one counts from the end.
unfoldable pub py_index : ℤ → ℕ → Option ℕ
py_index (pos n) len = if ltb n len then some n else none
py_index (negsuc n) len = if ltb n len then some (len - suc n) else none

-- The index of `xs[i]`, or IndexError.
abbrev pub index_of {ℓ} : {A : Type ℓ} → ℤ → List A → Result ℕ
index_of i xs = elim (py_index i (length xs)) [ none ↦ err index_error | some n ↦ ok n ]

-- An attribute of `data[v]`, for a vertex that belongs to the provenance layer.
abbrev pub as_prov : VertexData → Result ProvenanceVertexData
as_prov absent = err attribute_error
as_prov (prov d) = ok d
as_prov (call d) = err attribute_error

-- An attribute of `data[v]`, for a vertex that belongs to the call layer.
abbrev pub as_call : VertexData → Result CallVertexData
as_call absent = err attribute_error
as_call (prov d) = err attribute_error
as_call (call d) = ok d

-- An attribute of `data[v].cap`.
abbrev pub as_cap : Option CheriCap → Result CheriCap
as_cap none = err attribute_error
as_cap (some c) = ok c

pub as_prov-data : (x : VertexData) (d : ProvenanceVertexData) → as_prov x ≡ ok d → x ≡ prov d
as_prov-data absent d h = cc
as_prov-data (prov x) d h = cc
as_prov-data (call x) d h = cc

pub as_cap-some : (o : Option CheriCap) (c : CheriCap) → as_cap o ≡ ok c → o ≡ some c
as_cap-some none c h = cc
as_cap-some (some x) c h = cc

module _ ⦃gt : GraphTool⦄ where
  -- `RegisterSet` and `VertexMemoryMap` with the graph manager that they point to.
  pub record Core : Type 0 where
    pub pgm : Pgm
    pub reg_nodes : List (Option ℕ)
    pub initial_reg_nodes : List ℕ
    pub pause_recovered : List Bool
    pub vertex_map : Dict ℕ
    pub initial_map : Dict ℕ

  -- `self.pgm.data[v]`: the property map takes no None.
  abbrev pub peek_data : Option ℕ → M Core VertexData
  peek_data none = raise type_error
  peek_data (some v) = gets (λ s. s.pgm.data_of v)

  abbrev pub prov_data : ℕ → M Core ProvenanceVertexData
  prov_data v s = of_result (as_prov (s.pgm.data_of v)) s

  abbrev pub prov_data_at : Option ℕ → M Core ProvenanceVertexData
  prov_data_at none = raise type_error
  prov_data_at (some v) = prov_data v

  -- A method of the object `data[v]` has changed it.
  abbrev pub put_data : ℕ → ProvenanceVertexData → M Core (Unit {0})
  put_data v d = modify (λ s. record s { pgm = set_data v (prov d) s.pgm })

  -- `data[v].cap.<time> = …`
  abbrev pub put_cap : ℕ → ProvenanceVertexData → (CheriCap → CheriCap) → M Core (Unit {0})
  put_cap v d f = do c ← of_result (as_cap d.cap); put_data v (record d { cap = some (f c) })
