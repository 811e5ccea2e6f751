-- ===== src/Visit/Base.antt =====
-- provenance/visit/base.py: GraphVisitBase with its orders, the chain of visits, and the visits that
-- mask vertices. The searches of graph-tool are an argument: the calls that they make of the
-- visitor, in their order.
use cheriplot.Base.{ℕ, String, Bool, true, ◌&&◌, List, [], ◌∷◌, str_eq, if◌then◌else◌}
use cheriplot.Base.Errors.{value_error, M, pure, raise, get, gets, modify, ◌>>=◌, ◌>>◌}
use cheriplot.Graph.{GraphTool}
use cheriplot.Model.Manager.{Pgm}
use cheriplot.Visit.State.{Visit, new_named}

-- A call of the visitor by a search.
pub data Call : Type 0 where
  examine_vertex : ℕ → Call
  examine_edge : ℕ → Call

-- The vertices that a graph view shows.
abbrev pub View : Type 0
View = ℕ → Bool

module _ ⦃gt : GraphTool⦄ where
  -- A visitor: its order, the property that it adds to the graph when it is made, its two methods,
  -- and the view that it returns.
  pub record GraphVisit : Type 0 where
    pub order : String
    pub init : Visit → Visit
    pub on_vertex : ℕ → M Visit (Unit {0})
    pub on_edge : ℕ → M Visit (Unit {0})
    pub finalize : View → Visit → View

  abbrev pub handle : GraphVisit → Call → M Visit (Unit {0})
  handle visit (examine_vertex v) = visit.on_vertex v
  handle visit (examine_edge e) = visit.on_edge e

  -- The calls of one search.
  unfoldable pub run : GraphVisit → List Call → M Visit (Unit {0})
  run visit [] = pure tt
  run visit (c ∷ cs) = do handle visit c; run visit cs

  -- A method that a visitor leaves to the library's class, which does nothing.
  abbrev pub ignore : ℕ → M Visit (Unit {0})
  ignore n = pure tt

  -- The class `MaskBFSVisit`, for an `examine_vertex` and an `examine_edge`.
  unfoldable pub mask_visit : (ℕ → M Visit (Unit {0})) → (ℕ → M Visit (Unit {0})) → GraphVisit
  mask_visit on_vertex on_edge = record {
    order = "bfs";
    init = λ s. s;
    on_vertex = on_vertex;
    on_edge = on_edge;
    finalize = λ view s v. view v && s.vertex_mask v;
  }

  -- The class `DecorateBFSVisit` with a mask of Booleans.
  unfoldable pub decorate_visit :
      String → (ℕ → M Visit (Unit {0})) → (ℕ → M Visit (Unit {0})) → GraphVisit
  decorate_visit name on_vertex on_edge = record {
    order = "bfs";
    init = new_named name;
    on_vertex = on_vertex;
    on_edge = on_edge;
    finalize = λ view s. view;
  }

  module _ (bfs_search dfs_search : Pgm → View → List Call) where
    -- The visitor comes with a mask of its own, in which every vertex is set.
    pub do_visit : GraphVisit → View → M Visit View
    unfolding run
    do_visit visit view = do
      modify (λ s. record s { vertex_mask = λ v. true })
      s ← get
      if str_eq visit.order "bfs"
          then run visit (bfs_search s.pgm view)
          else if str_eq visit.order "dfs"
          then run visit (dfs_search s.pgm view)
          else raise value_error
      gets (visit.finalize view)

    -- `ChainGraphVisit.__call__`
    pub chain : List GraphVisit → View → M Visit View
    unfolding do_visit
    chain [] view = pure view
    chain (visit ∷ visits) view = do shown ← do_visit visit view; chain visits shown
