-- ===== src/Parser/Frames.antt =====
-- The frames of the call layer: `_make_call`, `_link_visible_vertices` and the returns of the class
-- CallgraphSubparser of provenance/parser/sub_mips.py.
use cheriplot.Base.{
  ℕ, suc, ◌+◌, ◌-◌, Bool, true, false, ◌&&◌, Option, none, some, List, [], ◌∷◌, ◌++◌, ltb, leb,
  ◌==◌, if◌then◌else◌, update,
}
use cheriplot.Base.Int.{ℤ, pos, int_eq}
use cheriplot.Base.Errors.{
  assertion, unexpected_operation, type_error, index_error, M, pure, raise, gets, modify, of_result,
  or_raise, when, ◌>>=◌, ◌>>◌,
}
use cheriplot.Graph.{GraphTool}
use cheriplot.Trace.{Entry, TraceRegs}
use cheriplot.Model.Vertex.{CallVertexData, call_data}
use cheriplot.Model.Manager.{EdgeOperation, call, set_data}
use cheriplot.Parser.State.{Core, as_call}
use cheriplot.Parser.RegisterSet.{cap_regfile_size}
use cheriplot.Parser.Worker.{Worker, CallState, lift}

-- The offset of register `reg_idx`, if the trace has a valid value for it.
unfoldable pub visible_offset : TraceRegs → ℕ → Option ℕ
visible_offset regs reg_idx =
    if ltb reg_idx 32 && regs.valid_caps (pos reg_idx)
    then some (regs.cap_reg reg_idx).offset
    else (if leb 32 reg_idx && regs.valid_hwcaps (reg_idx - 32)
        then some (regs.cap_hwreg (reg_idx - 32)).offset
        else none)

-- `visible_edges[(u, offset)]`
abbrev pub visible_edge : ℕ → ℕ → List (ℕ × ℕ × ℕ) → Option ℕ
visible_edge u offset [] = none
visible_edge u offset ((v, o, e) ∷ rest) =
    if u == v && offset == o then some e else visible_edge u offset rest

-- `call_stack[-1]`
abbrev pub top : List (ℕ × Option ℤ) → Option (ℕ × Option ℤ)
top [] = none
top (f ∷ fs) = some f

-- The rest of the stack behind `call_stack.pop()`.
abbrev pub pop : List (ℕ × Option ℤ) → List (ℕ × Option ℤ)
pop [] = []
pop (f ∷ fs) = fs

abbrev pub is_call : EdgeOperation → Bool
is_call EdgeOperation.call = true
is_call EdgeOperation.syscall = true
is_call _ = false

abbrev pub is_syscall : EdgeOperation → Bool
is_syscall EdgeOperation.syscall = true
is_syscall _ = false

module _ ⦃gt : GraphTool⦄ where
  -- `edge = graph.add_edge(u, v)` with its properties.
  unfoldable pub add_call_edge : (u v : ℕ) → EdgeOperation → (time addr : ℕ) → List ℕ → Core → Core
  add_call_edge u v op time addr regs s =
      let e = gt.num_edges s.pgm.graph in
      record s {
        pgm = record s.pgm {
          graph = gt.add_edge s.pgm.graph u v;
          edge_operation = update s.pgm.edge_operation e op;
          edge_time = update s.pgm.edge_time e time;
          edge_addr = update s.pgm.edge_addr e addr;
          edge_regs = update s.pgm.edge_regs e regs;
        };
      }

  -- A new vertex of the call layer.
  unfoldable pub add_call_vertex : CallVertexData → Core → Core
  add_call_vertex d s =
      let v = gt.num_vertices s.pgm.graph in
      record s {
        pgm = record s.pgm {
          graph = gt.add_vertex s.pgm.graph;
          data_of = update s.pgm.data_of v (call d);
          layer_call = update s.pgm.layer_call v true;
        };
      }

  -- `edge_regs[edge].append(reg_idx)`
  abbrev pub append_reg : ℕ → ℕ → Core → Core
  append_reg e reg_idx s = record s {
    pgm = record s.pgm { edge_regs = update s.pgm.edge_regs e (s.pgm.edge_regs e ++ reg_idx ∷ []) };
  }

  -- One register that holds vertex `u` at a valid offset: the edges seen so far, and the state.
  unfoldable pub link_register :
      ℕ → Entry → EdgeOperation → ℕ → ℕ → ℕ → List (ℕ × ℕ × ℕ) → Core → List (ℕ × ℕ × ℕ) × Core
  unfolding add_call_edge
  link_register vertex entry op reg_idx u offset seen s =
      let fresh : List (ℕ × ℕ × ℕ) × Core = (
        (u, offset, gt.num_edges s.pgm.graph) ∷ seen,
        add_call_edge u vertex op entry.cycles offset (reg_idx ∷ []) s,
      ) in
      elim (visible_edge u offset seen) [
        | none ↦ fresh
        | some e ↦ if s.pgm.edge_addr e == offset then (seen, append_reg e reg_idx s) else fresh
      ]

  -- The loop of `_link_visible_vertices` from register `reg_idx` on.
  unfoldable pub link_loop :
      ℕ → Entry → TraceRegs → EdgeOperation → ℕ → List (Option ℕ) → List (ℕ × ℕ × ℕ) → Core → Core
  unfolding visible_offset link_register
  link_loop vertex entry regs op reg_idx [] seen s = s
  link_loop vertex entry regs op reg_idx (none ∷ us) seen s =
      let rest = link_loop vertex entry regs op (suc reg_idx) us seen s in
      if leb cap_regfile_size reg_idx then s else rest
  link_loop vertex entry regs op reg_idx (some u ∷ us) seen s =
      if leb cap_regfile_size reg_idx then s else elim (visible_offset regs reg_idx) [
        | none ↦ link_loop vertex entry regs op (suc reg_idx) us seen s
        | some offset ↦
            let (seen', s') = link_register vertex entry op reg_idx u offset seen s in
            link_loop vertex entry regs op (suc reg_idx) us seen' s'
      ]

  -- `_link_visible_vertices`
  unfoldable pub link_visible_vertices : ℕ → Entry → TraceRegs → EdgeOperation → M Core (Unit {0})
  unfolding link_loop
  link_visible_vertices vertex entry regs op =
      modify (λ s. link_loop vertex entry regs op 0 s.reg_nodes [] s)

  abbrev pub put_calls : (CallState → CallState) → M Worker (Unit {0})
  put_calls f = modify (λ w. record w { calls = f w.calls })

  -- A method of the object `data[v]` of the call layer has changed it.
  abbrev pub put_call_data : ℕ → CallVertexData → M Core (Unit {0})
  put_call_data v d = modify (λ s. record s { pgm = set_data v (call d) s.pgm })

  -- The data of the vertex that `_make_call` creates.
  unfoldable pub callee_data : TraceRegs → Option ℤ → CallVertexData
  callee_data regs callee_addr = record (call_data callee_addr) {
    stack_frame_base =
        if regs.valid_caps (pos 11) && regs.valid_gprs 28
        then some ((regs.cap_reg 11).base + (regs.cap_reg 11).offset + regs.gpr 28)
        else none;
  }

  -- `_make_call`; its argument `dst_vertex` is not used.
  unfoldable pub make_call :
      Entry → TraceRegs → Option ℤ → Option ℤ → EdgeOperation → M Worker (Unit {0})
  unfolding callee_data add_call_vertex add_call_edge link_visible_vertices
  make_call entry regs callee_addr link_addr op = do
    put_calls (λ c. record c { landing_addr = callee_addr })
    vertex ← gets (λ w. gt.num_vertices w.core.pgm.graph)
    lift (modify (add_call_vertex (callee_data regs callee_addr)))
    frames ← gets (λ w. w.calls.call_stack)
    parent ← or_raise (top frames) assertion
    lift (modify (add_call_edge parent.0 vertex op entry.cycles entry.pc []))
    put_calls (λ c. record c { call_stack = (vertex, link_addr) ∷ c.call_stack })
    lift (link_visible_vertices vertex entry regs EdgeOperation.visible)

  -- The new root that `_make_return` puts above a root that returned.
  unfoldable pub replace_root : ℕ → M Worker (Unit {0})
  unfolding add_call_vertex add_call_edge
  replace_root curr_frame = do
    root ← gets (λ w. gt.num_vertices w.core.pgm.graph)
    lift (modify (add_call_vertex (call_data none)))
    lift (modify (add_call_edge root curr_frame EdgeOperation.call 0 0 []))
    put_calls (λ c. record c { root = root; call_stack = (root, none) ∷ c.call_stack })

  -- `_make_return`
  unfoldable pub make_return : Entry → TraceRegs → M Worker (Unit {0})
  unfolding link_visible_vertices replace_root
  make_return entry regs = do
    c ← gets (λ w. w.calls)
    popped ← or_raise (top c.call_stack) index_error
    let curr_frame = popped.0
    put_calls (λ c. record c { call_stack = pop c.call_stack })
    stored ← gets (λ w. w.core.pgm.data_of curr_frame)
    d ← of_result (as_call stored)
    lift (
        put_call_data curr_frame
          (record d { t_return = some entry.cycles; addr_return = some entry.pc }))
    lift (link_visible_vertices curr_frame entry regs EdgeOperation.return)
    when (curr_frame == c.root) (replace_root curr_frame)

  -- `_make_call_return`; the log message of a mismatch formats the address as a number.
  unfoldable pub make_call_return : Entry → Option ℤ → TraceRegs → M Worker (Unit {0})
  unfolding make_return
  make_call_return entry addr regs = do
    c ← gets (λ w. w.calls)
    frame ← or_raise (top c.call_stack) index_error
    elim frame.1 [
      | none ↦ if c.in_syscall then pure tt else make_return entry regs
      | some ret_addr ↦ elim addr [
        | none ↦ raise type_error
        | some a ↦ if int_eq ret_addr a then make_return entry regs else pure tt
      ]
    ]

  -- The operation of the first edge that enters the frame and is a call.
  unfoldable pub parent_edge : ℕ → List ℕ → Core → Option EdgeOperation
  parent_edge frame [] s = none
  parent_edge frame (e ∷ es) s =
      let rest = parent_edge frame es s in
      if gt.target s.pgm.graph e == frame && is_call (s.pgm.edge_operation e)
      then some (s.pgm.edge_operation e)
      else rest

  -- The loop of `_make_syscall_return` over the frames on the stack. A frame that is not the root
  -- is popped and the next one follows.
  unfoldable pub unwind : Entry → TraceRegs → List (ℕ × Option ℤ) → M Worker (Unit {0})
  unfolding parent_edge make_return
  unwind entry regs [] = raise index_error
  unwind entry regs ((frame, _) ∷ frames) =
      let rest = unwind entry regs frames in
      do
        root ← gets (λ w. w.calls.root)
        if frame == root then make_return entry regs else (do
          core ← gets (λ w. w.core)
          op ←
              or_raise (parent_edge frame (gt.all_edges core.pgm.graph frame) core)
                unexpected_operation
          make_return entry regs
          if is_syscall op then pure tt else rest)

  unfoldable pub make_syscall_return : Entry → TraceRegs → M Worker (Unit {0})
  unfolding unwind
  make_syscall_return entry regs = do
    frames ← gets (λ w. w.calls.call_stack)
    unwind entry regs frames
