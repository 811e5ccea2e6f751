-- ===== src/Parser/Sound/Provenance.antt =====
-- The provenance layer that the scan of a trace builds.
use cheriplot.Base.Post.{Post-ok}
use cheriplot.Graph.{GraphTool}
use cheriplot.Base.{ℕ, List, ◌<◌, ◌≡◌, arith, true, Option, some, ap₂, ◌∙◌}
use cheriplot.Model.Manager.{Pgm}
use cheriplot.Trace.{Instruction}
use cheriplot.Parser.Shape.{IsProvGraph, Grows, shape}
use cheriplot.Parser.Worker.{Worker}
use cheriplot.Parser.Dispatch.{scan_trace}
use cheriplot.Parser.Initial.{new_worker}
use cheriplot.Base.Errors.{ok}
use cheriplot.Parser.Sound.Running.{IsRunning, IsStack}
use cheriplot.Parser.Sound.Trace.{scan_trace-Keeps}
use cheriplot.Parser.Sound.Initial.{new_worker-IsRunning}
use cheriplot.Model.Vertex.{CheriNodeOrigin}
use cheriplot.Model.Cap.{CheriCap}
use cheriplot.Parser.Monotone.{IsWithin, is_violation-IsWithin}
use cheriplot.Parser.Nodes.{is_violation}

shape-cap :
    {x : Option (CheriNodeOrigin × Option CheriCap)} {o o' : CheriNodeOrigin} {c d : CheriCap}
    → x ≡ some (o, some c)
    → x ≡ some (o', some d)
    → c ≡ d
shape-cap {x} h k = cc

module _ ⦃gt : GraphTool⦄ where
  -- The worker that scanned a trace from the start satisfies the invariant.
  scanned :
      (size : ℕ) (insts : List Instruction) (w : Worker)
      → scan_trace insts (new_worker size) ≡ ok (tt, w)
      → IsRunning w
  scanned size insts w e =
      (Post-ok tt w (scan_trace-Keeps insts (new_worker size) (new_worker-IsRunning size))
        e).running

  -- If a worker that satisfies the invariant scans a trace to its end, it satisfies the invariant
  -- there, and each vertex that was in the graph keeps its layer, its origin and its capability but
  -- for the times of the allocation and the release.
  pub scan_trace-Later :
      (insts : List Instruction) (w v : Worker)
      → IsRunning w
      → scan_trace insts w ≡ ok (tt, v)
      → IsRunning v × Grows w.core.pgm v.core.pgm
  scan_trace-Later insts w v h e =
      let l = Post-ok tt v (scan_trace-Keeps insts w h) e in (l.running, l.grows)

  -- If a worker scans a trace to its end, an edge enters the provenance layer, and the vertices at
  -- its two ends have valid capabilities, then the base, length and permissions of both are set, and
  -- that of the target has a base not below, an end not above and no permission bit outside those of
  -- the source.
  pub scan_trace-IsWithin :
      (size : ℕ) (insts : List Instruction) (w : Worker)
      → scan_trace insts (new_worker size) ≡ ok (tt, w)
      → (e : ℕ) → e < gt.num_edges w.core.pgm.graph
      → w.core.pgm.layer_prov (gt.target w.core.pgm.graph e) ≡ true
      → (o o' : CheriNodeOrigin) (parent child : CheriCap)
      → shape (w.core.pgm.data_of (gt.source w.core.pgm.graph e)) ≡ some (o, some parent)
      → shape (w.core.pgm.data_of (gt.target w.core.pgm.graph e)) ≡ some (o', some child)
      → parent.valid ≡ true
      → child.valid ≡ true
      → IsWithin parent child
  scan_trace-IsWithin size insts w h e b l o o' parent child p c pv cv =
      let d = (scanned size insts w h).sound.graph.edges e b l in
      is_violation-IsWithin parent child pv cv (
        ap₂ is_violation (shape-cap p d.parent.has_shape) (shape-cap c d.child.has_shape)
        ∙ d.monotone)

  -- A path of edges that enter the provenance layer.
  pub data Descends (p : Pgm) : ℕ → ℕ → Type 0 where
    one_edge :
        (e : ℕ)
        → e < gt.num_edges p.graph
        → p.layer_prov (gt.target p.graph e) ≡ true
        → Descends p (gt.source p.graph e) (gt.target p.graph e)
    more_edges : {u v x : ℕ} → Descends p u v → Descends p v x → Descends p u x

  Descends-older : (p : Pgm) → IsProvGraph p → (u v : ℕ) → Descends p u v → u < v
  Descends-older p g u v (one_edge e h l) = (g.edges e h l).older
  Descends-older p g u v (more_edges {v = x} a b) =
      omega (arith, Descends-older p g u x a, Descends-older p g x v b)

  -- If a worker scans a trace to its end, no vertex of the provenance layer descends from itself.
  pub scan_trace-acyclic :
      (size : ℕ) (insts : List Instruction) (w : Worker)
      → scan_trace insts (new_worker size) ≡ ok (tt, w)
      → (v : ℕ) → ¬ (Descends w.core.pgm v v)
  scan_trace-acyclic size insts w h v d =
      let r = Descends-older w.core.pgm (scanned size insts w h).sound.graph v v d in
      omega (arith, r)

  -- If a worker scans a trace to its end, its call stack is not empty there: the root of the call
  -- tree is at the bottom, and no frame above is the root.
  pub scan_trace-IsStack :
      (size : ℕ) (insts : List Instruction) (w : Worker)
      → scan_trace insts (new_worker size) ≡ ok (tt, w)
      → IsStack w.calls.root w.calls.call_stack
  scan_trace-IsStack size insts w h = (scanned size insts w h).stack
