-- ===== src/Visit/Stack.antt =====
-- The deprecated visitors of provenance/visit/filters.py that guess the stack: DetectStackCapability
-- and DecorateStackStrict.
use cheriplot.Base.{
  ℕ, Bool, true, false, not, ◌&&◌, Option, none, some, if◌then◌else◌, List, suc, ◌∷◌, [], zero,
  str_eq,
}
use cheriplot.Model.Cap.{CheriCap}
use cheriplot.Graph.{GraphTool}
use cheriplot.Base.Errors.{
  Result, M, ◌>>=◌, of_result, get, pure, or_raise, value_error, ◌>>◌, modify, when,
}
use cheriplot.Visit.State.{
  Visit, and_also, opt_ge, in_layer_prov, opt_lt_num, graph_property, prov_data, cap_of, put_named,
}
use cheriplot.Visit.Decorate.{spread}
use cheriplot.Base.Int.{ℤ, int_eq, pos, ltb_ℤ}
use cheriplot.Parser.State.{as_prov, as_cap}

-- The range and the size that a root of the stack should have.
unfoldable pub is_stack_like : CheriCap → Result Bool
is_stack_like c =
    and_also (opt_ge c.base 0x7fff000000)
      (and_also (opt_lt_num c.base 0x8000000000) (opt_ge c.length 0x80000))

module _ ⦃gt : GraphTool⦄ where
  -- The first parent of the provenance layer among the edges into a vertex.
  unfoldable pub first_parent : Visit → List ℕ → Option ℕ
  first_parent s [] = none
  first_parent s (e ∷ es) =
      let rest = first_parent s es in
      let parent = gt.source s.pgm.graph e in if s.pgm.layer_prov parent then some parent else rest

  -- DetectStackCapability.check_parent: the loop returns at the first parent. None means that the
  -- fuel ran out, a recursion without end.
  unfoldable pub check_parent : ℕ → Visit → ℤ → ℕ → Option Bool
  unfolding first_parent
  check_parent zero s stack_vertex v = none
  check_parent (suc fuel) s stack_vertex v = elim (first_parent s (gt.in_edges s.pgm.graph v)) [
    | none ↦ some false
    | some parent ↦
        let above = check_parent fuel s stack_vertex parent in
        if int_eq (pos parent) stack_vertex then some true else above
  ]

  -- A vertex has fewer ancestors than its index.
  unfoldable pub is_stack_root : ℕ → CheriCap → M Visit Bool
  unfolding is_stack_like check_parent
  is_stack_root v c = do
    like ← of_result (is_stack_like c)
    if like
        then (do
          stack_vertex ← graph_property "stack_vertex"
          s ← get
          found ← or_raise (check_parent (suc v) s stack_vertex v) value_error
          pure (not found))
        else pure false

  -- DetectStackCapability.examine_vertex
  unfoldable pub detect_stack_vertex : ℕ → M Visit (Unit {0})
  unfolding is_stack_root
  detect_stack_vertex v = do
    p ← in_layer_prov v
    if p
        then (do
          execve_start ← graph_property "execve_call"
          execve_end ← graph_property "execve_return"
          d ← prov_data v
          c ← cap_of d
          if not (ltb_ℤ c.t_alloc execve_start) && not (ltb_ℤ execve_end c.t_alloc)
              then (do
                found ← is_stack_root v c
                when found (
                    modify (λ s. record s {
                      gp = λ name. if str_eq name "stack_vertex" then some (pos v) else s.gp name;
                    })))
              else pure tt)
        else pure tt

  -- DecorateStackStrict: the property is looked up at the first vertex and kept.
  pub record StackStrict : Type 0 where
    pub visit : Visit
    pub has_stack_vertex : Option Bool

  -- `_has_stack_vertex`
  unfoldable pub look_for_stack : M StackStrict Bool
  look_for_stack = do
    q ← get
    elim q.has_stack_vertex as (λ _. M StackStrict Bool) [
      | some b ↦ pure b
      | none ↦ elim (q.visit.gp "stack_vertex") as (λ _. M StackStrict Bool) [
        | some (pos v) ↦ do
          modify (λ t. record t {
            visit = put_named "annotated_usr_stack" v true t.visit;
            has_stack_vertex = some true;
          })
          pure true
        | _ ↦ do modify (λ t. record t { has_stack_vertex = some false }); pure false
      ]
    ]

  unfoldable pub strict_vertex : ℕ → M StackStrict (Unit {0})
  unfolding look_for_stack is_stack_like
  strict_vertex v = do
    q ← get
    if q.visit.pgm.layer_prov v
        then (do
          has_stack ← look_for_stack
          if has_stack then pure tt else (do
            d ← of_result (as_prov (q.visit.pgm.data_of v))
            c ← of_result (as_cap d.cap)
            like ← of_result (is_stack_like c)
            when (like && not (q.visit.vp "annotated_usr_stack" v)) (
                modify (λ t. record t { visit = put_named "annotated_usr_stack" v true t.visit }))))
        else pure tt

  unfoldable pub strict_edge : ℕ → StackStrict → StackStrict
  unfolding spread
  strict_edge e q = record q { visit = spread "annotated_usr_stack" e q.visit }
