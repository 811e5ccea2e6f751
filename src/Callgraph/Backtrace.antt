-- ===== src/Callgraph/Backtrace.antt =====
-- CallGraphTraceParser of callgraph/call_graph.py, with the graph of callgraph/model.py. The trace is
-- read backwards: a return is met before its call.
use cheriplot.Base.{
  ℕ, List, [], ◌∷◌, ◌++◌, Option, none, some, Bool, true, false, ◌==◌, leb, ◌+◌, lookup, insert,
  Dict, update, str_eq, suc, if◌then◌else◌,
}
use cheriplot.Base.Errors.{
  M, ◌>>◌, ◌>>=◌, get, modify, of_result, pure, raise, check, type_error, runtime_error,
}
use cheriplot.Graph.{GraphTool}
use cheriplot.Trace.{Instruction, Value}
use cheriplot.Parser.Defer.{operand_value, as_register}

module _ ⦃gt : GraphTool⦄ where
  -- The parser with the graph and the properties of its manager. The last return is the head of
  -- `return_stack`: its address, its time, and whether it is a return to a capability.
  pub record CallGraph : Type 0 where
    pub graph : gt.Graph
    pub addr : ℕ → ℕ
    pub t_call : ℕ → List ℕ
    pub backtrace : ℕ → ℕ
    pub root : ℕ
    pub return_stack : List (ℕ × ℕ × Bool)
    pub call_site_map : Dict ℕ
    pub backtrace_num : ℕ
    pub backtrace_depth : Option ℕ

  abbrev pub new_call_graph : Option ℕ → CallGraph
  new_call_graph depth = record {
    graph = gt.add_vertex gt.empty;
    addr = λ v. 0;
    t_call = λ e. [];
    backtrace = λ e. 0;
    root = gt.num_vertices gt.empty;
    return_stack = [];
    call_site_map = [];
    backtrace_num = 0;
    backtrace_depth = depth;
  }

  unfoldable pub check_depth : CallGraph → Bool
  check_depth s = elim s.backtrace_depth [ none ↦ false | some depth ↦ leb depth s.backtrace_num ]

  -- The first of the edges that leads to the vertex.
  abbrev pub edge_to : gt.Graph → ℕ → List ℕ → Option ℕ
  edge_to g v [] = none
  edge_to g v (e ∷ es) = let rest = edge_to g v es in if gt.target g e == v then some e else rest

  abbrev pub append_time : ℕ → ℕ → CallGraph → CallGraph
  append_time e time s = record s { t_call = update s.t_call e (s.t_call e ++ time ∷ []) }

  -- An edge from the root to a vertex, and the call on it.
  abbrev pub add_root_edge : ℕ → ℕ → CallGraph → CallGraph
  add_root_edge v time s =
      append_time (gt.num_edges s.graph) time (record s { graph = gt.add_edge s.graph s.root v })

  unfoldable pub add_call : ℕ → ℕ → CallGraph → CallGraph
  add_call target time s = elim (lookup target s.call_site_map) [
    | some v ↦ elim (edge_to s.graph v (gt.out_edges s.graph s.root)) [
      | some e ↦ append_time e time s
      | none ↦ add_root_edge v time s
    ]
    | none ↦
        let v = gt.num_vertices s.graph in
        add_root_edge v time (record s {
          graph = gt.add_vertex s.graph;
          addr = update s.addr v target;
          call_site_map = insert target v s.call_site_map;
        })
  ]

  -- The loop over `self.root.out_edges` is over a method, not over what it returns, and raises.
  unfoldable pub add_backtrace : ℕ → ℕ → M CallGraph (Unit {0})
  add_backtrace target time s = elim (lookup target s.call_site_map) [
    | some v ↦ raise type_error s
    | none ↦
        let root = gt.num_vertices s.graph in
        let e = gt.num_edges s.graph in
        let called = s.root in
        let t = add_root_edge called time (record s {
          graph = gt.add_vertex s.graph;
          addr = update s.addr s.root target;
          root = root;
        }) in
        pure tt
          (record t { backtrace = update t.backtrace e time; backtrace_num = suc t.backtrace_num })
  ]

  -- What the call does, the operands read: the return that it matches, or a call of the backtrace.
  unfoldable pub handle_call : Value → Value → ℕ → M CallGraph (Unit {0})
  unfolding add_call add_backtrace
  handle_call call_value ret_value time s = elim s.return_stack [
    | [] ↦
        (do call ← of_result (as_register call_value); add_backtrace (call.base + call.offset) time)
          s
    | (cjr_addr, cjr_cycles, is_cap) ∷ rest ↦
        (do
          check is_cap runtime_error
          ret ← of_result (as_register ret_value)
          check (ret.base + ret.offset == cjr_addr) runtime_error
          call ← of_result (as_register call_value)
          modify (add_call (call.base + call.offset) time))
          (record s { return_stack = rest })
  ]

  unfoldable pub scan_cjalr : Instruction → M CallGraph Bool
  unfolding handle_call check_depth
  scan_cjalr inst = if inst.entry.is_kernel then pure false else do
    call ← of_result (operand_value 1 inst)
    ret ← of_result (operand_value 0 inst)
    handle_call call ret inst.entry.cycles
    s ← get
    pure (check_depth s)

  unfoldable pub scan_cjr : Instruction → M CallGraph Bool
  unfolding check_depth
  scan_cjr inst = if inst.entry.is_kernel then pure false else do
    ret_value ← of_result (operand_value 0 inst)
    ret ← of_result (as_register ret_value)
    modify (λ s. record s {
      return_stack = (ret.base + ret.offset, inst.entry.cycles, true) ∷ s.return_stack;
    })
    s ← get
    pure (check_depth s)

  -- The body of `_scan`: the callback of the opcode, of which there is at most one.
  unfoldable pub scan_inst : Instruction → M CallGraph Bool
  unfolding scan_cjalr scan_cjr
  scan_inst inst =
      if str_eq inst.opcode "cjalr"
      then scan_cjalr inst
      else if str_eq inst.opcode "cjr"
      then scan_cjr inst
      else pure false

  -- The trace in the order of the scan, which a callback may stop.
  unfoldable pub scan_calls : List Instruction → M CallGraph (Unit {0})
  unfolding scan_inst
  scan_calls [] = pure tt
  scan_calls (inst ∷ insts) = do stop ← scan_inst inst; if stop then pure tt else scan_calls insts
