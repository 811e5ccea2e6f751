-- ===== src/Graph/Interface.antt =====
-- The operations of graph-tool that provenance/model.py and provenance/parser use, and what they
-- rely on. A vertex and an edge are their indices. The laws are documented behaviour: `add_vertex`
-- and `add_edge` return the next free index, an edge keeps its ends, and the edges of a vertex are
-- edges of the graph. In which order edges and neighbours are listed is left open.
use cheriplot.Base.{Among, ◌<◌, Option, ℕ, suc, ◌≡◌, List, ◌==◌, if◌then◌else◌}

pub record GraphTool : Type 1 where
  pub Graph : Type 0
  -- `Graph(directed=True)`
  pub empty : Graph
  pub num_vertices : Graph → ℕ
  pub num_edges : Graph → ℕ
  -- The vertex and the edge added are `num_vertices g` and `num_edges g`.
  pub add_vertex : Graph → Graph
  pub add_edge : Graph → ℕ → ℕ → Graph
  pub source : Graph → ℕ → ℕ
  pub target : Graph → ℕ → ℕ
  pub all_edges : Graph → ℕ → List ℕ
  pub in_edges : Graph → ℕ → List ℕ
  pub out_edges : Graph → ℕ → List ℕ
  -- `graph.edge(u, w)`, an edge between the two.
  pub edge_between : Graph → ℕ → ℕ → Option ℕ
  pub in_neighbours : Graph → ℕ → List ℕ
  pub out_neighbours : Graph → ℕ → List ℕ
  pub num_vertices-empty : num_vertices empty ≡ 0
  pub num_edges-empty : num_edges empty ≡ 0
  pub num_vertices-add_vertex : (g : Graph) → num_vertices (add_vertex g) ≡ suc (num_vertices g)
  pub num_vertices-add_edge : (g : Graph) (u v : ℕ) → num_vertices (add_edge g u v) ≡ num_vertices g
  pub num_edges-add_vertex : (g : Graph) → num_edges (add_vertex g) ≡ num_edges g
  pub num_edges-add_edge : (g : Graph) (u v : ℕ) → num_edges (add_edge g u v) ≡ suc (num_edges g)
  pub source-add_vertex : (g : Graph) (e : ℕ) → source (add_vertex g) e ≡ source g e
  pub target-add_vertex : (g : Graph) (e : ℕ) → target (add_vertex g) e ≡ target g e
  pub source-add_edge :
      (g : Graph) (u v e : ℕ)
      → source (add_edge g u v) e ≡ (if e == num_edges g then u else source g e)
  pub target-add_edge :
      (g : Graph) (u v e : ℕ)
      → target (add_edge g u v) e ≡ (if e == num_edges g then v else target g e)
  pub all_edges-lt : (g : Graph) (w e : ℕ) → Among e (all_edges g w) → e < num_edges g
  pub out_edges-all :
      (g : Graph) (w e : ℕ) → e < num_edges g → source g e ≡ w → Among e (out_edges g w)
