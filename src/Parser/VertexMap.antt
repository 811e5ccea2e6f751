-- ===== src/Parser/VertexMap.antt =====
-- The class VertexMemoryMap of provenance/parser/base.py.
use cheriplot.Base.{ℕ, Option, none, some, if◌then◌else◌, lookup, insert, erase, is_some}
use cheriplot.Base.Errors.{key_error, M, raise, gets, modify, ◌>>=◌, ◌>>◌}
use cheriplot.Graph.{GraphTool}
use cheriplot.Parser.State.{Core}

module _ ⦃gt : GraphTool⦄ where
  -- `del` of a missing key raises.
  unfoldable pub clear : ℕ → M Core (Unit {0})
  clear addr = do
    old ← gets (λ s. lookup addr s.vertex_map)
    if is_some old
        then modify (λ s. record s { vertex_map = erase addr s.vertex_map })
        else raise key_error

  unfoldable pub vertex_at : ℕ → M Core (Option ℕ)
  vertex_at addr = gets (λ s. lookup addr s.vertex_map)

  -- What `mem_load` assigns when it is given a vertex.
  abbrev pub register_load : ℕ → ℕ → Core → Core
  register_load addr v s = record s {
    initial_map =
        if is_some (lookup addr s.initial_map) then s.initial_map else insert addr v s.initial_map;
    vertex_map = insert addr v s.vertex_map;
  }

  unfoldable pub mem_load : ℕ → Option ℕ → M Core (Option ℕ)
  mem_load addr none = gets (λ s. lookup addr s.vertex_map)
  mem_load addr (some v) = do modify (register_load addr v); gets (λ s. lookup addr s.vertex_map)

  unfoldable pub mem_store : ℕ → ℕ → M Core (Unit {0})
  mem_store addr v = modify (λ s. record s { vertex_map = insert addr v s.vertex_map })
