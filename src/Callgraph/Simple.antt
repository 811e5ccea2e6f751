-- ===== src/Callgraph/Simple.antt =====
-- callgraph/call_graph.py: the graph that a trace builds, and its map from addresses to vertices.
use cheriplot.Graph.{GraphTool}
use cheriplot.Callgraph.Backtrace.{
  CallGraph, new_call_graph, edge_to, append_time, add_root_edge, add_call, add_backtrace,
  handle_call, scan_cjalr, scan_cjr, scan_inst, scan_calls,
}
use cheriplot.Base.{
  ℕ, ◌<◌, lookup, List, Bool-cases, ◌≢◌, ◌≡◌, length, ◌==◌, some, none, arith, inl, Among,
  length-append, ◌∷◌, [], inr, ap, update, Bool, lookup-insert, Option-cases, ◌++◌, insert, ◌⊎◌,
  if◌then◌else◌, Option, refl, suc, str_eq, ◌+◌, true,
}
use cheriplot.Base.Post.{Post, failed, Post-result, Post-if, done, Post-bind, Post-ok, Post-check}
use cheriplot.Trace.{Value, Instruction}
use cheriplot.Base.Errors.{ok, runtime_error}
use cheriplot.Parser.Defer.{as_register, operand_value}

Stack-cases {ℓ} :
    {A : Type ℓ} (xs : List A) → (xs ≡ []) ⊎ ((x : A) × (rest : List A) × (xs ≡ x ∷ rest))
Stack-cases [] = inl refl
Stack-cases (x ∷ rest) = inr (x, rest, refl)

module _ ⦃gt : GraphTool⦄ where
  abbrev at_source : CallGraph → ℕ → ℕ
  at_source s e = gt.source s.graph e

  -- What the scan keeps.
  pub record IsSimple (s : CallGraph) : Type 0 where
    pub root_lt : s.root < gt.num_vertices s.graph
    pub known_lt :
        (target v : ℕ) → lookup target s.call_site_map ≡ some v → v < gt.num_vertices s.graph
    pub known_addr : (target v : ℕ) → lookup target s.call_site_map ≡ some v → s.addr v ≡ target
    pub known_root : (target v : ℕ) → lookup target s.call_site_map ≡ some v → v ≢ s.root
    pub source_lt :
        (e : ℕ) → e < gt.num_edges s.graph → gt.source s.graph e < gt.num_vertices s.graph
    pub target_lt :
        (e : ℕ) → e < gt.num_edges s.graph → gt.target s.graph e < gt.num_vertices s.graph
    pub into_root : (e : ℕ) → e < gt.num_edges s.graph → gt.target s.graph e ≢ s.root
    pub simple :
        (e f : ℕ)
        → e < gt.num_edges s.graph
        → f < gt.num_edges s.graph
        → gt.source s.graph e ≡ gt.source s.graph f
        → gt.target s.graph e ≡ gt.target s.graph f
        → e ≡ f
    pub called : (e : ℕ) → e < gt.num_edges s.graph → 0 < length (s.t_call e)

  abbrev pub IsCalled : (ℕ → List ℕ) → ℕ → Type 0
  IsCalled t_call e = 0 < length (t_call e)

  edge_to-none :
      (g : gt.Graph) (v e : ℕ) (es : List ℕ)
      → edge_to g v es ≡ none
      → Among e es
      → gt.target g e ≢ v
  edge_to-none g v e [] h m = absurd m
  edge_to-none g v e (x ∷ es) h (inl y) = λ k. let same = ap (gt.target g) y in ground arith
  edge_to-none g v e (x ∷ es) h (inr y) = edge_to-none g v e es (ground arith) y

  append_time-IsCalled :
      (t_call : ℕ → List ℕ) (k time e : ℕ)
      → (e ≢ k → IsCalled t_call e)
      → IsCalled (update t_call k (t_call k ++ time ∷ [])) e
  append_time-IsCalled t_call k time e h = elim (Bool-cases (e == k)) [
    | inl y ↦ rw y (omega (arith, length-append (t_call k) (time ∷ [])))
    | inr n ↦ rw n (h (ground arith))
  ]

  append_time-IsSimple : (s : CallGraph) (e time : ℕ) → IsSimple s → IsSimple (append_time e time s)
  append_time-IsSimple s e time h = record {
    root_lt = h.root_lt;
    known_lt = h.known_lt;
    known_addr = h.known_addr;
    known_root = h.known_root;
    source_lt = h.source_lt;
    target_lt = h.target_lt;
    into_root = h.into_root;
    simple = h.simple;
    called = λ f k. append_time-IsCalled s.t_call e time f (λ n. h.called f k);
  }

  -- A new edge from the root to a vertex that no edge from the root leads to.
  add_root_edge-IsSimple :
      (s : CallGraph) (v time : ℕ)
      → IsSimple s
      → v < gt.num_vertices s.graph
      → v ≢ s.root
      → ((e : ℕ)
          → e < gt.num_edges s.graph
          → gt.source s.graph e ≡ s.root
          → gt.target s.graph e ≢ v)
      → IsSimple (add_root_edge v time s)
  add_root_edge-IsSimple s v time h v_lt v_root fresh =
      let vertices = gt.num_vertices-add_edge s.graph s.root v in
      let edges = gt.num_edges-add_edge s.graph s.root v in
      let source = gt.source-add_edge s.graph s.root v in
      let target = gt.target-add_edge s.graph s.root v in
      record {
        root_lt = omega (arith, vertices, h.root_lt);
        known_lt = λ t w k. omega (arith, vertices, h.known_lt t w k);
        known_addr = h.known_addr;
        known_root = h.known_root;
        source_lt = λ e k. ground (arith, vertices, edges, source e, h.source_lt e, h.root_lt);
        target_lt = λ e k. ground (arith, vertices, edges, target e, h.target_lt e, v_lt);
        into_root = λ e k. ground (arith, edges, target e, h.into_root e);
        simple = λ e f k l a b.
            ground (
              arith,
              edges,
              source e,
              source f,
              target e,
              target f,
              h.simple e f,
              fresh e,
              fresh f,
            );
        called = λ e k.
            append_time-IsCalled s.t_call (gt.num_edges s.graph) time e
              (λ n. h.called e (ground (arith, edges)));
      }

  -- The fields that the invariant does not read.
  others-IsSimple :
      (s : CallGraph) (backtrace : ℕ → ℕ) (returns : List (ℕ × ℕ × Bool)) (n : ℕ)
      → IsSimple s
      → IsSimple (record s { backtrace = backtrace; return_stack = returns; backtrace_num = n })
  others-IsSimple s backtrace returns n h = record {
    root_lt = h.root_lt;
    known_lt = h.known_lt;
    known_addr = h.known_addr;
    known_root = h.known_root;
    source_lt = h.source_lt;
    target_lt = h.target_lt;
    into_root = h.into_root;
    simple = h.simple;
    called = h.called;
  }

  -- A vertex for a function that was not called before.
  abbrev add_function : ℕ → CallGraph → CallGraph
  add_function target s = record s {
    graph = gt.add_vertex s.graph;
    addr = update s.addr (gt.num_vertices s.graph) target;
    call_site_map = insert target (gt.num_vertices s.graph) s.call_site_map;
  }

  add_function-IsSimple :
      (s : CallGraph) (target : ℕ) → IsSimple s → IsSimple (add_function target s)
  add_function-IsSimple s target h =
      let vertices = gt.num_vertices-add_vertex s.graph in
      let edges = gt.num_edges-add_vertex s.graph in
      let source = gt.source-add_vertex s.graph in
      let target_of = gt.target-add_vertex s.graph in
      let n = gt.num_vertices s.graph in
      let known : (t : ℕ)
          → lookup t (insert target n s.call_site_map)
            ≡ (if t == target then some n else lookup t s.call_site_map) =
        λ t. lookup-insert t target n s.call_site_map in
      record {
        root_lt = omega (arith, vertices, h.root_lt);
        known_lt = λ t w k. ground (arith, vertices, known t, h.known_lt t w);
        known_addr = λ t w k. ground (arith, known t, h.known_lt t w, h.known_addr t w);
        known_root = λ t w k. ground (arith, known t, h.root_lt, h.known_root t w);
        source_lt = λ e k. ground (arith, vertices, edges, source e, h.source_lt e);
        target_lt = λ e k. ground (arith, vertices, edges, target_of e, h.target_lt e);
        into_root = λ e k. ground (arith, edges, target_of e, h.into_root e);
        simple = λ e f k l a b.
            ground (arith, edges, source e, source f, target_of e, target_of f, h.simple e f);
        called = λ e k. h.called e (ground (arith, edges));
      }

  -- A new root in front of the old one, whose address is known now.
  abbrev add_caller : ℕ → CallGraph → CallGraph
  add_caller target s = record s {
    graph = gt.add_vertex s.graph;
    addr = update s.addr s.root target;
    root = gt.num_vertices s.graph;
  }

  add_caller-IsSimple : (s : CallGraph) (target : ℕ) → IsSimple s → IsSimple (add_caller target s)
  add_caller-IsSimple s target h =
      let vertices = gt.num_vertices-add_vertex s.graph in
      let edges = gt.num_edges-add_vertex s.graph in
      let source = gt.source-add_vertex s.graph in
      let target_of = gt.target-add_vertex s.graph in
      record {
        root_lt = omega (arith, vertices);
        known_lt = λ t w k. omega (arith, vertices, h.known_lt t w k);
        known_addr = λ t w k. ground (arith, h.known_addr t w k, h.known_root t w k);
        known_root = λ t w k. ground (arith, h.known_lt t w k);
        source_lt = λ e k. ground (arith, vertices, edges, source e, h.source_lt e);
        target_lt = λ e k. ground (arith, vertices, edges, target_of e, h.target_lt e);
        into_root = λ e k. ground (arith, edges, target_of e, h.target_lt e);
        simple = λ e f k l a b.
            ground (arith, edges, source e, source f, target_of e, target_of f, h.simple e f);
        called = λ e k. h.called e (ground (arith, edges));
      }

  add_call-IsSimple :
      (s : CallGraph) (target time : ℕ) → IsSimple s → IsSimple (add_call target time s)
  unfolding add_call
  add_call-IsSimple s target time h = elim (Option-cases (lookup target s.call_site_map)) [
    | inr (v, e) ↦ elim (Option-cases (edge_to s.graph v (gt.out_edges s.graph s.root))) [
      | inr (x, found) ↦ rw (e, found, add_call) (append_time-IsSimple s x time h)
      | inl missing ↦
          rw (e, missing, add_call)
            (add_root_edge-IsSimple s v time h (h.known_lt target v e) (h.known_root target v e)
              λ x k from.
                edge_to-none s.graph v x (gt.out_edges s.graph s.root) missing
                  (gt.out_edges-all s.graph s.root x k from))
    ]
    | inl missing ↦
        let vertices = gt.num_vertices-add_vertex s.graph in
        let edges = gt.num_edges-add_vertex s.graph in
        rw (missing, add_call)
          (add_root_edge-IsSimple (add_function target s) (gt.num_vertices s.graph) time
            (add_function-IsSimple s target h) (omega (arith, vertices)) (ground (arith, h.root_lt))
            (λ x k from. ground (arith, edges, gt.target-add_vertex s.graph x, h.target_lt x)))
  ]

  add_backtrace-IsSimple :
      (s : CallGraph) (target time : ℕ)
      → IsSimple s
      → Post (λ _ t. IsSimple t) (add_backtrace target time s)
  unfolding add_backtrace
  add_backtrace-IsSimple s target time h = elim (Option-cases (lookup target s.call_site_map)) [
    | inr (v, e) ↦ rw (e, add_backtrace) failed
    | inl missing ↦
        let vertices = gt.num_vertices-add_vertex s.graph in
        let edges = gt.num_edges-add_vertex s.graph in
        let next = add_root_edge s.root time (add_caller target s) in
        rw (missing, add_backtrace)
          (done (
            others-IsSimple next (update next.backtrace (gt.num_edges s.graph) time)
              next.return_stack (suc next.backtrace_num)
              (add_root_edge-IsSimple (add_caller target s) s.root time
                (add_caller-IsSimple s target h) (omega (arith, vertices, h.root_lt))
                (ground (arith, h.root_lt))
                (λ x k from.
                  ground (arith, edges, gt.source-add_vertex s.graph x, h.source_lt x)))))
  ]

  handle_call-IsSimple :
      (s : CallGraph) (call ret : Value) (time : ℕ)
      → IsSimple s
      → Post (λ _ t. IsSimple t) (handle_call call ret time s)
  unfolding handle_call
  handle_call-IsSimple s call ret time h = elim (Stack-cases s.return_stack) [
    | inl e ↦
        rw (e, handle_call)
          (Post-result (as_register call) s _
            λ c x. add_backtrace-IsSimple s (c.base + c.offset) time h)
    | inr ((addr, cycles, is_cap), rest, e) ↦
        let popped = record s { return_stack = rest } in
        rw (e, handle_call)
          (Post-check is_cap runtime_error popped _ λ x.
            Post-result (as_register ret) popped _ λ r y.
              Post-check (r.base + r.offset == addr) runtime_error popped _ λ z.
                Post-result (as_register call) popped _ λ c w. done (
                  add_call-IsSimple popped (c.base + c.offset) time
                    (others-IsSimple s s.backtrace rest s.backtrace_num h)))
  ]

  scan_cjalr-IsSimple :
      (s : CallGraph) (inst : Instruction)
      → IsSimple s
      → Post (λ _ t. IsSimple t) (scan_cjalr inst s)
  unfolding scan_cjalr
  scan_cjalr-IsSimple s inst h =
      Post-if inst.entry.is_kernel _ _ s (λ k. done h)
        λ k. Post-result (operand_value 1 inst) s _ λ call x.
          Post-result (operand_value 0 inst) s _ λ ret y.
            Post-bind (handle_call-IsSimple s call ret inst.entry.cycles h) λ _ t kept. done kept

  scan_cjr-IsSimple :
      (s : CallGraph) (inst : Instruction) → IsSimple s → Post (λ _ t. IsSimple t) (scan_cjr inst s)
  unfolding scan_cjr
  scan_cjr-IsSimple s inst h =
      Post-if inst.entry.is_kernel _ _ s (λ k. done h)
        λ k. Post-result (operand_value 0 inst) s _ λ ret y.
          Post-result (as_register ret) s _ λ r z. done (
            others-IsSimple s s.backtrace
              ((r.base + r.offset, inst.entry.cycles, true) ∷ s.return_stack) s.backtrace_num h)

  scan_inst-IsSimple :
      (s : CallGraph) (inst : Instruction)
      → IsSimple s
      → Post (λ _ t. IsSimple t) (scan_inst inst s)
  unfolding scan_inst
  scan_inst-IsSimple s inst h =
      Post-if (str_eq inst.opcode "cjalr") _ _ s (λ k. scan_cjalr-IsSimple s inst h)
        λ k. Post-if (str_eq inst.opcode "cjr") _ _ s (λ l. scan_cjr-IsSimple s inst h) λ l. done h

  scan_calls-Post :
      (s : CallGraph) (insts : List Instruction)
      → IsSimple s
      → Post (λ _ t. IsSimple t) (scan_calls insts s)
  unfolding scan_calls
  scan_calls-Post s [] h = done h
  scan_calls-Post s (inst ∷ insts) h =
      Post-bind (scan_inst-IsSimple s inst h)
        λ stop t kept. Post-if stop _ _ t (λ k. done kept) λ k. scan_calls-Post t insts kept

  new_call_graph-IsSimple : (depth : Option ℕ) → IsSimple (new_call_graph depth)
  new_call_graph-IsSimple depth =
      let vertices = gt.num_vertices-add_vertex gt.empty in
      let edges = gt.num_edges-add_vertex gt.empty in
      let none_there = gt.num_edges-empty in
      record {
        root_lt = omega (arith, vertices);
        known_lt = λ t w k. cc;
        known_addr = λ t w k. cc;
        known_root = λ t w k. cc;
        source_lt = λ e k. absurd (omega (arith, edges, none_there));
        target_lt = λ e k. absurd (omega (arith, edges, none_there));
        into_root = λ e k. absurd (omega (arith, edges, none_there));
        simple = λ e f k l a b. absurd (omega (arith, edges, none_there));
        called = λ e k. absurd (omega (arith, edges, none_there));
      }

  -- Whatever trace the parser scans without raising, in the graph that it builds no edge leads to the
  -- root, two edges with the same ends are one edge, each edge has the time of a call, and the vertex
  -- of each address in the map of call sites has that address and is not the root.
  pub scan_calls-IsSimple :
      (depth : Option ℕ) (insts : List Instruction) (t : CallGraph)
      → scan_calls insts (new_call_graph depth) ≡ ok (tt, t)
      → IsSimple t
  scan_calls-IsSimple depth insts t ran =
      Post-ok tt t (scan_calls-Post (new_call_graph depth) insts (new_call_graph-IsSimple depth))
        ran
