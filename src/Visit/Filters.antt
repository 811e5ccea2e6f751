-- ===== src/Visit/Filters.antt =====
-- The visitors of provenance/visit/filters.py that mask vertices.
use cheriplot.Base.{ℕ, Bool, true, false, not, ◌&&◌, ◌||◌, some, if◌then◌else◌, opt_eq}
use cheriplot.Model.Cap.{CheriCap, bound}
use cheriplot.Model.Vertex.{
  CheriNodeOrigin, ProvenanceVertexData, root, fromptr, andperm, initial_root,
}
use cheriplot.Graph.{GraphTool}
use cheriplot.Base.Errors.{Result, M, pure, ◌>>=◌, gets, of_result, when, get, modify}
use cheriplot.Visit.Base.{mask_visit, GraphVisit, ignore}
use cheriplot.Visit.State.{
  and_also, Visit, opt_ge, opt_le, cap_of, graph_property, vertex_property, prov_data, in_call,
  put_mask, in_layer_prov,
}
use cheriplot.Base.Int.{ltb_ℤ, pos}

-- The test of FilterNullVertices.
unfoldable pub is_null : CheriCap → Bool
is_null c = (opt_eq c.length (some 0) && opt_eq c.base (some 0)) || not c.valid

-- The test on the origin in FilterRootVertices.
abbrev pub is_any_root : CheriNodeOrigin → Bool
is_any_root root = true
is_any_root initial_root = true
is_any_root _ = false

abbrev pub is_fromptr : CheriNodeOrigin → Bool
is_fromptr fromptr = true
is_fromptr _ = false

abbrev pub is_andperm : CheriNodeOrigin → Bool
is_andperm andperm = true
is_andperm _ = false

-- `cap.base >= begin and cap.bound <= end`
unfoldable pub lies_in : ℕ → ℕ → CheriCap → Result Bool
unfolding bound
lies_in begin end_ c = and_also (opt_ge c.base begin) (opt_le (bound c) end_)

module _ ⦃gt : GraphTool⦄ where
  -- The frame of these methods: the vertex leaves the mask if it is in the provenance layer and the
  -- test of its data holds.
  unfoldable pub mask_if : (ℕ → ProvenanceVertexData → M Visit Bool) → ℕ → M Visit (Unit {0})
  mask_if test v = do
    p ← in_layer_prov v
    if p then (do d ← prov_data v; b ← test v d; when b (modify (put_mask v false))) else pure tt

  unfoldable pub null_test : ℕ → ProvenanceVertexData → M Visit Bool
  unfolding is_null
  null_test v d = do c ← cap_of d; pure (is_null c)

  unfoldable pub filter_null_vertices : GraphVisit
  unfolding mask_visit mask_if null_test
  filter_null_vertices = mask_visit (mask_if null_test) ignore

  -- FilterBeforeExecve
  unfoldable pub before_execve_test : ℕ → ProvenanceVertexData → M Visit Bool
  before_execve_test v d = do
    execve_time ← graph_property "execve_call"
    c ← cap_of d
    pure (ltb_ℤ c.t_alloc execve_time)

  unfoldable pub before_execve_edge : ℕ → M Visit (Unit {0})
  before_execve_edge e = do
    calls ← gets (in_call e)
    if calls
        then (do
          execve_time ← graph_property "execve_call"
          s ← get
          when (ltb_ℤ (pos (s.pgm.edge_time e)) execve_time) (
              modify (λ t.
                put_mask (gt.target s.pgm.graph e) false
                  (put_mask (gt.source s.pgm.graph e) false t))))
        else pure tt

  unfoldable pub filter_before_execve : GraphVisit
  unfolding mask_visit mask_if before_execve_test before_execve_edge
  filter_before_execve = mask_visit (mask_if before_execve_test) before_execve_edge

  -- FilterUnusedKernelVertices
  unfoldable pub unused_kernel_test : ℕ → ProvenanceVertexData → M Visit Bool
  unused_kernel_test v d =
      if d.is_kernel
      then (do
        korigin ← vertex_property "annotated_korigin" v
        if korigin
            then pure false
            else (do ksyscall ← vertex_property "annotated_ksyscall" v; pure (not ksyscall)))
      else pure false

  unfoldable pub filter_unused_kernel_vertices : GraphVisit
  unfolding mask_visit mask_if unused_kernel_test
  filter_unused_kernel_vertices = mask_visit (mask_if unused_kernel_test) ignore

  -- FilterStackVertices
  unfoldable pub stack_test : ℕ → ℕ → ℕ → ProvenanceVertexData → M Visit Bool
  unfolding lies_in
  stack_test stack_begin stack_end v d = do
    c ← cap_of d
    of_result (lies_in stack_begin stack_end c)

  unfoldable pub filter_stack_vertices : ℕ → ℕ → GraphVisit
  unfolding mask_visit mask_if stack_test
  filter_stack_vertices stack_begin stack_end =
      mask_visit (mask_if (stack_test stack_begin stack_end)) ignore

  -- FilterKernelVertices: a `pc` of None is not 0.
  unfoldable pub kernel_test : ℕ → ProvenanceVertexData → M Visit Bool
  kernel_test v d = pure (not (opt_eq d.pc (some 0)) && d.is_kernel)

  unfoldable pub filter_kernel_vertices : GraphVisit
  unfolding mask_visit mask_if kernel_test
  filter_kernel_vertices = mask_visit (mask_if kernel_test) ignore

  unfoldable pub filter_cfromptr : GraphVisit
  unfolding mask_visit mask_if
  filter_cfromptr = mask_visit (mask_if (λ v d. pure (is_fromptr d.origin))) ignore

  unfoldable pub filter_candperm : GraphVisit
  unfolding mask_visit mask_if
  filter_candperm = mask_visit (mask_if (λ v d. pure (is_andperm d.origin))) ignore

  unfoldable pub filter_root_vertices : GraphVisit
  unfolding mask_visit mask_if
  filter_root_vertices = mask_visit (mask_if (λ v d. pure (is_any_root d.origin))) ignore
