-- ===== src/Tests/Visits.antt =====
-- The theorems on the visitors of the graph, and on the split of a trace, at concrete inputs.
use cheriplot.Base.{
  [], ◌∷◌, none, some, true, false, refl, List, ℕ, ◌≡◌, inl, inr, arith, ◌≤◌, ◌<◌, ◌-◌, ◌⊎◌, Bool,
  ◌↔◌, Among, length, Bool-cases, ◌∙◌, ◌==◌, sym,
}
use cheriplot.Visit.Base.{Call, examine_vertex, examine_edge, run, View}
use cheriplot.Graph.Lists.{list_graph}
use cheriplot.Parser.Initial.{new_pgm}
use cheriplot.Visit.State.{Visit}
use cheriplot.Chunks.{
  assertion, parse_blocks, blocks, split, Tile, raised, zero_division, blocks_lem,
}
use cheriplot.Visit.Parents.{Rises, Above, check_parent-total}
use cheriplot.Visit.Filters.{filter_null_vertices}
use cheriplot.Model.Vertex.{CallVertexData, call_data, ProvenanceVertexData, add_event, fresh_data}
use cheriplot.Visit.Execve.{examine_edges, find_last_execve, FindLastExecve}
use cheriplot.Visit.LastExecve.{find_last_execve_lem}
use cheriplot.Visit.ExecveCall.{IsSequential, IsExecve}
use cheriplot.Base.Int.{negsuc, pos, ltb_ℤ}
use cheriplot.Model.Cap.{CheriCap, empty_cap}
use cheriplot.Model.ActiveMemory.{IsTracked, add_event-IsTracked, fresh_data-IsTracked}
use cheriplot.Visit.Merge.{merged_data}
use cheriplot.Model.Manager.{Pgm, prov, VertexData, EdgeOperation}
use cheriplot.Visit.Stack.{check_parent}
use cheriplot.Visit.Masked.{examines, IsNullVertex, filter_null_vertices_lem}
use cheriplot.Base.Errors.{ok, err}
use cheriplot.Visit.Merged.{merged_data-IsTracked}
use cheriplot.Visit.Decorate.{decorate_stack_capabilities}
use cheriplot.Visit.Descend.{decorate_stack_capabilities-Walk}
use cheriplot.Visit.Marks.{IsLeft, Walk}
use cheriplot.Visit.Slice.{Slice, time_slice}
use cheriplot.Visit.Sliced.{time_slice-InSlice}
use cheriplot.Visit.SliceTimes.{InSlice}
use cheriplot.Model.EventType

abbrev plain_cap : CheriCap
plain_cap = record empty_cap {
  base = some 0x1000;
  length = some 0x40;
  permissions = some 7;
  objtype = some 0;
  valid = true;
}

-- Three capabilities, each derived from the one before.
abbrev chain_pgm : Pgm
chain_pgm = record new_pgm {
  graph = record { vertices = 3; edges = (0, 1) ∷ (1, 2) ∷ [] };
  data_of = λ v. prov (record fresh_data { cap = some plain_cap });
  layer_prov = λ v. true;
}

abbrev chain_visit : Visit
chain_visit = record {
  pgm = chain_pgm;
  gp = λ n. some (pos 1);
  vp = λ n v. false;
  has_vp = λ n. false;
  vertex_mask = λ v. true;
}

blocks_test : blocks 2 13 3 ≡ split ((2, 4) ∷ (5, 7) ∷ (8, 12) ∷ [])
unfolding blocks
blocks_test = refl

-- One worker does not split the interval.
parse_blocks_test :
    (parse_blocks none (some 12) 20 1 ≡ split ((0, 13) ∷ []))
    × (parse_blocks (some 2) (some 12) 20 3 ≡ split ((2, 4) ∷ (5, 7) ∷ (8, 12) ∷ []))
    × (parse_blocks none none 20 0 ≡ raised assertion)
unfolding parse_blocks
parse_blocks_test = (refl, refl, refl)

blocks_example :
    ((3 ≤ 13 - 2)
      × (bs : List (ℕ × ℕ)) × (blocks 2 13 3 ≡ split bs)
      × Tile 2 13 bs
      × (length bs ≡ 3))
    ⊎ ((13 - 2 < 3) × (blocks 2 13 3 ≡ raised zero_division))
blocks_example = blocks_lem 2 13 3 (omega arith) (omega arith)

-- Vertex 1 is the stack vertex: the edge into it is examined first.
abbrev chain_calls : List Call
chain_calls = examine_vertex 0 ∷ examine_edge 0 ∷ examine_vertex 1 ∷ examine_edge 1 ∷ []

decorate_stack_capabilities-Walk_example :
    (t : Visit) × (run decorate_stack_capabilities chain_calls
        (decorate_stack_capabilities.init chain_visit)
      ≡ ok (tt, t))
    × ((w : ℕ)
        → (t.vp "annotated_usr_stack" w ≡ true)
          ↔ (IsLeft chain_pgm 1 (0 ∷ 1 ∷ []) × Walk chain_pgm 1 (0 ∷ 1 ∷ []) 1 w))
decorate_stack_capabilities-Walk_example =
    decorate_stack_capabilities-Walk 1 chain_calls chain_visit refl

-- Three capabilities under the stack vertex 1, of which the edge to 2 is examined behind the edge from
-- it to 3.
abbrev late_visit : Visit
late_visit = record chain_visit {
  pgm = record chain_pgm { graph = record { vertices = 4; edges = (1, 2) ∷ (2, 3) ∷ [] } };
}

abbrev marked_late : Bool
unfolding decorate_stack_capabilities run
marked_late =
    elim (run decorate_stack_capabilities (examine_edge 1 ∷ examine_edge 0 ∷ []) late_visit) [
      | ok (a, t) ↦ t.vp "annotated_usr_stack" 3
      | err e ↦ true
    ]

-- 3 descends from the stack vertex and is not marked.
late_test : marked_late ≡ false
unfolding decorate_stack_capabilities run marked_late
late_test = refl

chain-Rises : Rises chain_visit
chain-Rises v e a = elim (Bool-cases (v == 1)) [
  | inl one ↦
      let two : (v == 2) ≡ false = ground arith in
      elim (rw (one, two) at a) [ inl first ↦ rw first (ground arith) | inr z ↦ absurd z ]
  | inr other ↦ elim (Bool-cases (v == 2)) [
    | inl two ↦ elim (rw (other, two) at a) [
      | inl second ↦ rw second (ground arith)
      | inr z ↦ absurd z
    ]
    | inr none_left ↦ absurd (rw (other, none_left) at a)
  ]
]

check_parent-total_example :
    (b : Bool) × (check_parent 3 chain_visit (pos 0) 2 ≡ some b)
    × ((b ≡ true) ↔ Above chain_visit 0 2)
check_parent-total_example = check_parent-total 3 chain_visit 0 2 chain-Rises (omega arith)

abbrev masked : Visit
unfolding filter_null_vertices run
masked =
    elim (run filter_null_vertices (examine_vertex 1 ∷ [])
      (record chain_visit { vertex_mask = λ v. true })) [ ok (a, t) ↦ t | err e ↦ chain_visit ]

filter_null_vertices_test :
    run filter_null_vertices
      (examine_vertex 1 ∷ [])
      (record chain_visit { vertex_mask = λ v. true })
    ≡ ok (tt, masked)
unfolding filter_null_vertices run masked
filter_null_vertices_test = refl

filter_null_vertices_example :
    (masked ≡ record chain_visit { vertex_mask = masked.vertex_mask })
    × ((v : ℕ)
        → (masked.vertex_mask v ≡ false)
          ↔ ((examines (examine_vertex 1 ∷ []) v ≡ true) × IsNullVertex chain_visit.pgm v))
filter_null_vertices_example =
    filter_null_vertices_lem (examine_vertex 1 ∷ []) chain_visit masked filter_null_vertices_test

-- A call of execve at the time 4 that returns at 9.
abbrev execve_data : CallVertexData
execve_data = record (call_data (some (pos 0x3b))) { t_return = some 9 }

abbrev execve_visit : Visit
execve_visit = record chain_visit {
  pgm = record chain_pgm {
    data_of = λ v. VertexData.call execve_data;
    layer_call = λ v. true;
    edge_time = λ e. 4;
    edge_operation = λ e. EdgeOperation.syscall;
  };
}

abbrev found : FindLastExecve
unfolding examine_edges find_last_execve
found = elim (examine_edges (0 ∷ []) (find_last_execve execve_visit)) [
  | ok (a, f) ↦ f
  | err e ↦ find_last_execve execve_visit
]

find_last_execve_test : examine_edges (0 ∷ []) (find_last_execve execve_visit) ≡ ok (tt, found)
unfolding examine_edges find_last_execve found
find_last_execve_test = refl

execve-IsSequential : IsSequential execve_visit (0 ∷ [])
execve-IsSequential e x r q a b i j =
    let data_eq : i.call ≡ execve_data = cc (i.has_data) in
    let time : 9 ≡ r = cc (i.returned, data_eq) in
    (
      omega (arith, time),
      elim a [
        | inl first ↦ elim b [ inl second ↦ inl (first ∙ sym second) | inr z ↦ absurd z ]
        | inr z ↦ absurd z
      ],
    )

find_last_execve_example :
    (((found.execve_call ≡ negsuc 0) × (found.execve_vertex ≡ none))
      ⊎ ((e : ℕ) × (r : ℕ) × Among e (0 ∷ [])
          × IsExecve execve_visit e r
          × (found.execve_call ≡ pos (execve_visit.pgm.edge_time e))
          × (found.execve_return ≡ pos r)
          × (found.execve_vertex ≡ some (list_graph.target execve_visit.pgm.graph e))))
    × ((e r : ℕ)
        → Among e (0 ∷ [])
        → IsExecve execve_visit e r
        → ltb_ℤ found.execve_call (pos (execve_visit.pgm.edge_time e)) ≡ false)
find_last_execve_example =
    find_last_execve_lem execve_visit (0 ∷ []) found find_last_execve_test execve-IsSequential

-- A vertex with a capability that was stored once.
abbrev stored_at : ℕ → ProvenanceVertexData
stored_at addr = record (add_event fresh_data 1 addr false EventType.store) { cap = some plain_cap }

stored_at-IsTracked : (addr : ℕ) → IsTracked (stored_at addr)
stored_at-IsTracked addr =
    let t =
      add_event-IsTracked fresh_data
        (record { time = 1; addr = addr; is_kernel = false; type = EventType.store })
        fresh_data-IsTracked in
    record { is_dict = t.is_dict; agrees = t.agrees }

abbrev merged_sample : ProvenanceVertexData
unfolding merged_data
merged_sample = elim (merged_data (stored_at 0x20) (stored_at 0x40)) [
  | ok d ↦ d
  | err e ↦ fresh_data
]

merged_data_test : merged_data (stored_at 0x20) (stored_at 0x40) ≡ ok merged_sample
unfolding merged_data merged_sample add_event
merged_data_test = refl

merged_data-IsTracked_example : IsTracked merged_sample
unfolding add_event
merged_data-IsTracked_example =
    merged_data-IsTracked (stored_at 0x20) (stored_at 0x40) merged_sample merged_data_test
      (stored_at-IsTracked 0x20) (stored_at-IsTracked 0x40) (refl, tt)

-- A slice of the times 5 to 9 by the time of creation, over vertices made at their index.
abbrev sample_slice : Slice
sample_slice = record {
  start = 5;
  end_time = 9;
  creation_time = true;
  deref_time = false;
  access_time = false;
}

abbrev timed_visit : Visit
timed_visit = record chain_visit {
  pgm = record chain_pgm {
    data_of = λ v. prov (record fresh_data { cap = some (record plain_cap { t_alloc = pos v }) });
  };
}

abbrev all_shown : View
all_shown = λ v. true

abbrev examined : Pgm → View → List ℕ
examined pgm view = 4 ∷ 6 ∷ []

abbrev sliced : View × Visit
unfolding time_slice
sliced = elim (time_slice sample_slice examined all_shown timed_visit) [
  | ok x ↦ x
  | err e ↦ (all_shown, timed_visit)
]

time_slice_test : time_slice sample_slice examined all_shown timed_visit ≡ ok (sliced.0, sliced.1)
unfolding time_slice sliced
time_slice_test = refl

shown_test : (sliced.0 4 ≡ false) × (sliced.0 6 ≡ true)
unfolding time_slice sliced
shown_test = (refl, refl)

time_slice-InSlice_example :
    (5 < 9)
    × ((v : ℕ)
        → (sliced.0 v ≡ true)
          ↔ ((true ≡ true) × (InSlice sample_slice timed_visit.pgm v × Among v (4 ∷ 6 ∷ []))))
time_slice-InSlice_example =
    time_slice-InSlice sample_slice examined all_shown sliced.0 timed_visit sliced.1 time_slice_test
