-- ===== src/Visit/Slice.antt =====
-- The class ProvGraphTimeSlice of provenance/visit/slice.py.
use cheriplot.Model.EventType
use cheriplot.Base.{ℕ, Bool, false, not, ◌&&◌, ◌||◌, if◌then◌else◌, List, leb, ◌∷◌, ltb, []}
use cheriplot.Model.Cap.{CheriCap}
use cheriplot.Graph.{GraphTool}
use cheriplot.Base.Int.{ltb_ℤ, pos}
use cheriplot.Model.Vertex.{Event, ProvenanceVertexData, has_flag}
use cheriplot.Base.Errors.{M, pure, ◌>>◌, ◌>>=◌, check, modify, assertion, get, gets}
use cheriplot.Model.Manager.{Pgm}
use cheriplot.Visit.Decorate.{any_row, rows}
use cheriplot.Visit.State.{Visit, cap_of, in_layer_prov, prov_data, put_mask}
use cheriplot.Visit.Base.{View}

-- The arguments of the constructor.
pub record Slice : Type 0 where
  pub start : ℕ
  pub end_time : ℕ
  pub creation_time : Bool
  pub deref_time : Bool
  pub access_time : Bool

-- `_filter_alloc_time`
unfoldable pub filter_alloc_time : Slice → CheriCap → Bool
filter_alloc_time f c =
    not (ltb_ℤ c.t_alloc (pos f.start)) && not (ltb_ℤ (pos f.end_time) c.t_alloc)

-- `_filter_event_time`: a row of the mask between the two times, both included.
unfoldable pub filter_event_time : Slice → ℕ → List Event → Bool
filter_event_time f mask events =
    any_row (λ r. leb f.start r.time && leb r.time f.end_time)
      (rows (λ r. has_flag r.type mask) events)

module _ ⦃gt : GraphTool⦄ where
  -- The filters, which read the vertex even where an earlier one matched.
  unfoldable pub matches : Slice → ProvenanceVertexData → M Visit Bool
  unfolding filter_alloc_time filter_event_time
  matches f d = do
    alloc ← if f.creation_time then (do c ← cap_of d; pure (filter_alloc_time f c)) else pure false
    pure (
        alloc
        || ((f.deref_time && filter_event_time f EventType.deref_mask d.events)
            || (f.access_time && filter_event_time f EventType.memop_mask d.events)))

  unfoldable pub slice_vertex : Slice → ℕ → M Visit (Unit {0})
  unfolding matches
  slice_vertex f v = do
    p ← in_layer_prov v
    if p then (do d ← prov_data v; b ← matches f d; modify (put_mask v b)) else pure tt

  unfoldable pub slice_vertices : Slice → List ℕ → M Visit (Unit {0})
  unfolding slice_vertex
  slice_vertices f [] = pure tt
  slice_vertices f (v ∷ vs) = do slice_vertex f v; slice_vertices f vs

  -- A slice is made, which asserts the order of its times, and run: its own mask starts at False,
  -- and is the view that it returns.
  unfoldable pub time_slice : Slice → (Pgm → View → List ℕ) → View → M Visit View
  unfolding slice_vertices
  time_slice f examined view = do
    check (ltb f.start f.end_time) assertion
    modify (λ s. record s { vertex_mask = λ v. false })
    s ← get
    slice_vertices f (examined s.pgm view)
    gets (λ t v. view v && t.vertex_mask v)
