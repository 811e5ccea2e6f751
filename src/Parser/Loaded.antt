-- ===== src/Parser/Loaded.antt =====
-- What a load of a capability finds behind a store to the same address: scan_clc behind scan_csc, in
-- the class PointerProvenanceSubparser (provenance/parser/sub_mips.py).
use cheriplot.Base.{none, some, true, false, ℕ, ◌≡◌, ◌⊎◌}
use cheriplot.Base.Post.{Post}
use cheriplot.Base.Int.{ℤ}
use cheriplot.Base.Errors.{ok}
use cheriplot.Graph.{GraphTool}
use cheriplot.Trace.{Value, cap, CapRegister}
use cheriplot.Parser.State.{Core}
use cheriplot.Parser.Worker.{Worker}
use cheriplot.Parser.RegisterSet.{is_cap_compatible}
use cheriplot.Parser.Stored.{Holds}

module _ ⦃gt : GraphTool⦄ where
  -- What a load puts into a register for the vertex `u` at its address: nothing, if it loads no valid
  -- capability; `u`, if its data fits the capability; or else a new vertex.
  abbrev pub IsLoaded : CapRegister → ℕ → Core → ℤ → Core → Type 0
  IsLoaded r u s i t =
      ((r.valid ≡ false) × Holds i none t.reg_nodes)
      ⊎ (((r.valid ≡ true)
            × (is_cap_compatible (s.pgm.data_of u) (cap r) ≡ ok true)
            × Holds i (some u) t.reg_nodes)
          ⊎ ((r.valid ≡ true)
              × (is_cap_compatible (s.pgm.data_of u) (cap r) ≡ ok false)
              × Holds i (some (gt.num_vertices s.pgm.graph)) t.reg_nodes))

  -- The vertex that a load of a valid capability takes.
  abbrev Choice : Value → ℕ → Core → ℕ → Type 0
  Choice v u s x =
      ((is_cap_compatible (s.pgm.data_of u) v ≡ ok true) × (x ≡ u))
      ⊎ ((is_cap_compatible (s.pgm.data_of u) v ≡ ok false) × (x ≡ gt.num_vertices s.pgm.graph))
