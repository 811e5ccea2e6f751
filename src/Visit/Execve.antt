-- ===== src/Visit/Execve.antt =====
-- The class FindLastExecve of provenance/visit/filters.py.
use cheriplot.Base.{
  ℕ, Bool, Option, none, some, if◌then◌else◌, true, false, List, ◌∷◌, ◌&&◌, mem_nat, [], str_eq,
}
use cheriplot.Base.Int.{ℤ, pos, int_eq, negsuc, ltb_ℤ}
use cheriplot.Model.Manager.{EdgeOperation, Pgm}
use cheriplot.Graph.{GraphTool}
use cheriplot.Base.Errors.{
  Result, M, err, raise, pure, ◌>>=◌, type_error, get, ◌>>◌, ok, when, attribute_error, of_result,
  modify,
}
use cheriplot.Visit.State.{Visit, in_call}
use cheriplot.Model.Vertex.{CallVertexData}
use cheriplot.Parser.State.{as_call}

-- `data.t_return > self.last_execve`
abbrev pub returns_after : Option ℕ → ℤ → Result Bool
returns_after none z = err type_error
returns_after (some t) z = ok (ltb_ℤ z (pos t))

abbrev pub is_syscall : EdgeOperation → Bool
is_syscall EdgeOperation.syscall = true
is_syscall _ = false

abbrev pub is_return : EdgeOperation → Bool
is_return EdgeOperation.return = true
is_return _ = false

-- `data.address == code`
abbrev pub has_address : Option ℤ → ℕ → Bool
has_address none code = false
has_address (some z) code = int_eq z (pos code)

abbrev pub execve_code : ℕ
execve_code = 0x3b

abbrev pub stc_register : ℕ
stc_register = 11

module _ ⦃gt : GraphTool⦄ where
  -- The fields of the visitor. The vertex is -1 until a call is found: none.
  pub record FindLastExecve : Type 0 where
    pub visit : Visit
    pub last_execve : ℤ
    pub execve_vertex : Option ℕ
    pub execve_call : ℤ
    pub execve_return : ℤ

  unfoldable pub find_last_execve : Visit → FindLastExecve
  find_last_execve s = record {
    visit = s;
    last_execve = negsuc 0;
    execve_vertex = none;
    execve_call = negsuc 0;
    execve_return = negsuc 0;
  }

  -- What `examine_edge` assigns when the call is a later one.
  unfoldable pub found_execve : ℕ → ℕ → FindLastExecve → FindLastExecve
  found_execve e t_return f =
      let s = f.visit in
      record f {
        last_execve = pos (s.pgm.edge_time e);
        execve_call = pos (s.pgm.edge_time e);
        execve_return = pos t_return;
        execve_vertex = some (gt.target s.pgm.graph e);
      }

  unfoldable pub examine_execve : ℕ → CallVertexData → M FindLastExecve (Unit {0})
  unfolding found_execve
  examine_execve e d =
      if has_address d.address execve_code
      then elim d.t_return as (λ _. M FindLastExecve (Unit {0})) [
        | none ↦ raise type_error
        | some t ↦ do f ← get; when (ltb_ℤ f.last_execve (pos t)) (modify (found_execve e t))
      ]
      else pure tt

  unfoldable pub examine_edge : ℕ → M FindLastExecve (Unit {0})
  unfolding examine_execve
  examine_edge e = do
    f ← get
    if in_call e f.visit && is_syscall (f.visit.pgm.edge_operation e)
        then (do
          d ← of_result (as_call (f.visit.pgm.data_of (gt.target f.visit.pgm.graph e)))
          examine_execve e d)
        else pure tt

  unfoldable pub examine_edges : List ℕ → M FindLastExecve (Unit {0})
  unfolding examine_edge
  examine_edges [] = pure tt
  examine_edges (e ∷ es) = do examine_edge e; examine_edges es

  -- The last edge into the call that returns the register of the stack.
  unfoldable pub stack_source : Pgm → ℤ → List ℕ → ℤ
  stack_source pgm found [] = found
  stack_source pgm found (e ∷ es) =
      stack_source pgm
        (if is_return (pgm.edge_operation e) && mem_nat stc_register (pgm.edge_regs e)
          then pos (gt.source pgm.graph e)
          else found)
        es

  -- `finalize`: without a call the vertex is the number -1, which has no edges.
  unfoldable pub finalize : M FindLastExecve (Unit {0})
  unfolding stack_source
  finalize = do
    f ← get
    elim f.execve_vertex as (λ _. M FindLastExecve (Unit {0})) [
      | none ↦ raise attribute_error
      | some v ↦ modify (λ g. record g {
        visit = record g.visit {
          gp = λ name.
              if str_eq name "execve_vertex"
              then some (pos v)
              else if str_eq name "execve_call"
              then some g.execve_call
              else if str_eq name "execve_return"
              then some g.execve_return
              else if str_eq name "stack_vertex"
              then some (stack_source f.visit.pgm (negsuc 0) (gt.in_edges f.visit.pgm.graph v))
              else g.visit.gp name;
        };
      })
    ]
