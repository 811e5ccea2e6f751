-- ===== src/Visit/Decorate.antt =====
-- The visitors of provenance/visit/filters.py that mark kernel, stack, executable and heap
-- capabilities.
use cheriplot.Model.EventType
use cheriplot.Visit.State.{
  call_data, Visit, in_prov, put_named, in_layer_prov, graph_property, cap_of, vertex_property,
  prov_data,
}
use cheriplot.Base.{
  ℕ, Bool, true, false, not, ◌&&◌, ◌||◌, none, some, ◌==◌, if◌then◌else◌, List, String, ◌∷◌, ltb,
  mem_nat, bit_or, [], leb,
}
use cheriplot.Model.Manager.{EdgeOperation}
use cheriplot.Model.Vertex.{Event, has_flag, CallVertexData, ProvenanceVertexData}
use cheriplot.Base.Int.{ℤ, ltb_ℤ, pos, int_eq}
use cheriplot.Graph.{GraphTool}
use cheriplot.Base.Errors.{M, pure, ◌>>=◌, get, modify, of_result, ◌>>◌, check, when, assertion}
use cheriplot.Visit.Base.{decorate_visit, GraphVisit, ignore}
use cheriplot.Visit.Filters.{lies_in}
use cheriplot.Model.Cap.{has_perm, perm_exec}
use cheriplot.Visit.Execve.{is_return, is_syscall}

-- `any(map(lambda x: x < 34, regs))`
abbrev pub any_below : ℕ → List ℕ → Bool
any_below n [] = false
any_below n (x ∷ xs) = let rest = any_below n xs in ltb x n || rest

abbrev pub is_visible : EdgeOperation → Bool
is_visible EdgeOperation.visible = true
is_visible _ = false

-- The rows of an event table that a data frame mask keeps.
abbrev pub rows : (Event → Bool) → List Event → List Event
rows test [] = []
rows test (e ∷ es) = let rest = rows test es in if test e then e ∷ rest else rest

-- `.any()`
abbrev pub any_row : (Event → Bool) → List Event → Bool
any_row test [] = false
any_row test (e ∷ es) = let rest = any_row test es in test e || rest

-- What the loop of DecorateAccessedInUserspace meets first.
pub data FirstAccess : Type 0 where
  no_access loaded stored : FirstAccess

unfoldable pub first_access : List Event → FirstAccess
first_access [] = no_access
first_access (e ∷ es) =
    let rest = first_access es in
    if has_flag e.type EventType.load
    then loaded
    else if has_flag e.type EventType.store
    then stored
    else rest

-- A user row after the return from execve.
abbrev pub is_user_after : ℤ → Event → Bool
is_user_after time e = has_flag e.type EventType.usr && ltb_ℤ time (pos e.time)

module _ ⦃gt : GraphTool⦄ where
  -- `for ein in dst.in_edges()`: the vertices visible at the call and at the return.
  unfoldable pub visible_loop : List ℕ → List ℕ → List ℕ → M Visit (List ℕ × List ℕ)
  visible_loop [] call_visible ret_visible = pure (call_visible, ret_visible)
  visible_loop (ein ∷ es) call_visible ret_visible = do
    s ← get
    let eop = s.pgm.edge_operation ein
    let src = gt.source s.pgm.graph ein
    if is_return eop || is_visible eop
        then (do
          check (s.pgm.layer_prov src) assertion
          d ← prov_data src
          let keep = any_below 34 (s.pgm.edge_regs ein) && d.is_kernel
          visible_loop es (if keep && is_visible eop then src ∷ call_visible else call_visible)
              (if keep && not (is_visible eop) then src ∷ ret_visible else ret_visible))
        else visible_loop es call_visible ret_visible

  -- `for v in ret_visible.difference(call_visible)`
  unfoldable pub mark_new : List ℕ → List ℕ → Visit → Visit
  mark_new call_visible [] s = s
  mark_new call_visible (v ∷ vs) s =
      mark_new call_visible vs
        (if mem_nat v call_visible then s else put_named "annotated_ksyscall" v true s)

  -- Whether DecorateKernelCapabilities returns early: a return time of 0 counts as none.
  unfoldable pub is_before_execve : ℕ → CallVertexData → ℤ → Visit → Bool
  is_before_execve e d execve_call s = elim d.t_return [
    | none ↦ ltb_ℤ (pos (s.pgm.edge_time e)) execve_call
    | some t ↦
        if t == 0 then ltb_ℤ (pos (s.pgm.edge_time e)) execve_call else ltb_ℤ (pos t) execve_call
  ]

  unfoldable pub kernel_edge : ℕ → M Visit (Unit {0})
  unfolding visible_loop mark_new is_before_execve
  kernel_edge e = do
    s ← get
    if is_syscall (s.pgm.edge_operation e)
        then (do
          let dst = gt.target s.pgm.graph e
          d ← call_data dst
          execve_call ← graph_property "execve_call"
          if is_before_execve e d execve_call s then pure tt else (do
            seen ← visible_loop (gt.in_edges s.pgm.graph dst) [] []
            modify (mark_new seen.0 seen.1)))
        else pure tt

  unfoldable pub decorate_kernel_capabilities : GraphVisit
  unfolding decorate_visit kernel_edge
  decorate_kernel_capabilities = decorate_visit "annotated_ksyscall" ignore kernel_edge

  -- DecorateAccessedInUserspace
  unfoldable pub userspace_access : ℕ → FirstAccess → M Visit (Unit {0})
  userspace_access v no_access = pure tt
  userspace_access v loaded = modify (put_named "annotated_korigin" v true)
  userspace_access v stored = do
    ksyscall ← vertex_property "annotated_ksyscall" v
    check ksyscall assertion

  unfoldable pub userspace_vertex : ℕ → M Visit (Unit {0})
  unfolding userspace_access first_access
  userspace_vertex v = do
    p ← in_layer_prov v
    if p
        then (do
          d ← prov_data v
          if d.is_kernel
              then (do
                execve_return ← graph_property "execve_return"
                userspace_access v (first_access (rows (is_user_after execve_return) d.events)))
              else pure tt)
        else pure tt

  unfoldable pub decorate_accessed_in_userspace : GraphVisit
  unfolding decorate_visit userspace_vertex
  decorate_accessed_in_userspace = decorate_visit "annotated_korigin" userspace_vertex ignore

  -- `mask[dst] = True` for an edge of the provenance layer whose source is marked.
  unfoldable pub spread : String → ℕ → Visit → Visit
  spread name e s =
      if in_prov e s && s.vp name (gt.source s.pgm.graph e)
      then put_named name (gt.target s.pgm.graph e) true s
      else s

  -- DecorateStackCapabilities
  unfoldable pub stack_edge : ℕ → M Visit (Unit {0})
  unfolding spread
  stack_edge e = do
    stack_vertex ← graph_property "stack_vertex"
    s ← get
    let src = gt.source s.pgm.graph e
    when (int_eq (pos src) stack_vertex) (modify (put_named "annotated_usr_stack" src true))
    modify (spread "annotated_usr_stack" e)

  unfoldable pub decorate_stack_capabilities : GraphVisit
  unfolding decorate_visit stack_edge
  decorate_stack_capabilities = decorate_visit "annotated_usr_stack" ignore stack_edge

  -- DecorateStackAll: a row that dereferences an address of the stack.
  unfoldable pub touches : ℕ → ℕ → Event → Bool
  touches stack_begin stack_end row =
      has_flag row.type (bit_or EventType.deref_load EventType.deref_store)
      && (leb stack_begin row.addr && leb row.addr stack_end)

  unfoldable pub stack_all_vertex : ℕ → ℕ → ℕ → M Visit (Unit {0})
  unfolding touches
  stack_all_vertex stack_begin stack_end v = do
    p ← in_layer_prov v
    if p
        then (do
          d ← prov_data v
          modify (put_named "annotated_stack" v (any_row (touches stack_begin stack_end) d.events)))
        else pure tt

  unfoldable pub decorate_stack_all : ℕ → ℕ → GraphVisit
  unfolding decorate_visit stack_all_vertex
  decorate_stack_all stack_begin stack_end =
      decorate_visit "annotated_stack" (stack_all_vertex stack_begin stack_end) ignore

  -- The frame of the visitors that mark a vertex of the provenance layer by a test of its data.
  pub mark_if : String → (ProvenanceVertexData → M Visit Bool) → ℕ → M Visit (Unit {0})
  mark_if name test v = do
    p ← in_layer_prov v
    if p then (do d ← prov_data v; b ← test d; when b (modify (put_named name v true))) else pure tt

  -- DecorateStackAll_Old and DecorateHeap
  unfoldable pub decorate_stack_all_old : ℕ → ℕ → GraphVisit
  unfolding decorate_visit mark_if lies_in
  decorate_stack_all_old stack_begin stack_end =
      decorate_visit "annotated_stack"
        (mark_if "annotated_stack"
          (λ d. do c ← cap_of d; of_result (lies_in stack_begin stack_end c)))
        ignore

  unfoldable pub decorate_heap : ℕ → ℕ → GraphVisit
  unfolding decorate_visit mark_if lies_in
  decorate_heap heap_begin heap_end =
      decorate_visit "in_jemalloc"
        (mark_if "in_jemalloc" (λ d. do c ← cap_of d; of_result (lies_in heap_begin heap_end c)))
        ignore

  -- DecorateExecutable
  unfoldable pub decorate_executable : GraphVisit
  unfolding decorate_visit mark_if has_perm
  decorate_executable =
      decorate_visit "annotated_exec"
        (mark_if "annotated_exec" (λ d. do c ← cap_of d; of_result (has_perm c perm_exec))) ignore
