-- ===== src/Parser/RegisterSet.antt =====
-- The class RegisterSet of provenance/parser/base.py.
use cheriplot.Base.{
  ℕ, ◌+◌, Bool, true, false, not, ◌&&◌, Option, none, some, List, [], ◌∷◌, if◌then◌else◌, opt_eq,
  bool_eq, is_some, mem_opt, get_elem?, set, length, replicate, bit_and,
}
use cheriplot.Base.Int.{ℤ, pos, int_eq}
use cheriplot.Base.Errors.{
  Result, ok, err, attribute_error, index_error, M, pure, gets, modify, of_result, or_raise, when,
  ◌>>=◌, ◌>>◌,
}
use cheriplot.Graph.{GraphTool}
use cheriplot.Trace.{Value, nothing, num, cap, vertex}
use cheriplot.Model.Cap.{cheri_cap, max_otype}
use cheriplot.Model.Vertex.{is_partial, is_root, has_active_memory}
use cheriplot.Model.Manager.{VertexData, absent, prov, call}
use cheriplot.Parser.State.{Core, index_of, prov_data, prov_data_at, put_cap, peek_data}

abbrev pub cap_regfile_size : ℕ
cap_regfile_size = 64

-- The index of pcc, and of the hardware registers that have a name.
abbrev pub pcc : ℤ
pcc = pos 64

abbrev pub epcc : ℤ
epcc = pos 63

abbrev pub kcc : ℤ
kcc = pos 61

-- `_is_cap_compatible`, with its argument `data` None, or an object.
unfoldable pub is_cap_compatible : VertexData → Value → Result Bool
is_cap_compatible d nothing = ok true
is_cap_compatible absent (cap c) = ok (not c.valid)
is_cap_compatible (call d) (cap c) = err attribute_error
is_cap_compatible (prov d) (cap c) = elim d.cap [
  | none ↦ ok true
  | some dc ↦ ok (
      opt_eq dc.base (some c.base)
      && (opt_eq dc.length (some c.length)
          && (opt_eq dc.permissions (some c.permissions)
              && (opt_eq dc.objtype (some (bit_and c.type max_otype))
                  && (bool_eq dc.valid c.valid && bool_eq dc.sealed c.unsealed)))))
]
is_cap_compatible absent (num n) = err attribute_error
is_cap_compatible absent (vertex v) = err attribute_error
is_cap_compatible (call d) (num n) = err attribute_error
is_cap_compatible (call d) (vertex v) = err attribute_error
is_cap_compatible (prov d) (num n) = if is_some d.cap then err attribute_error else ok true
is_cap_compatible (prov d) (vertex v) = if is_some d.cap then err attribute_error else ok true

module _ ⦃gt : GraphTool⦄ where
  unfoldable pub get_reg : ℤ → M Core (Option ℕ)
  get_reg index = do
    nodes ← gets (λ s. s.reg_nodes)
    i ← of_result (index_of index nodes)
    or_raise (get_elem? nodes i) index_error

  -- `self.reg_nodes[index] = value`
  unfoldable pub put_reg : ℤ → Option ℕ → M Core (Unit {0})
  put_reg index value = do
    nodes ← gets (λ s. s.reg_nodes)
    i ← of_result (index_of index nodes)
    modify (λ s. record s { reg_nodes = set s.reg_nodes i value })

  -- The loop of `_attach_partial_vertex` over the parents of the root.
  unfoldable pub any_partial : List ℕ → M Core Bool
  any_partial [] = pure false
  any_partial (n ∷ ns) =
      let rest = any_partial ns in
      do d ← prov_data n; if is_partial d.origin then pure true else rest

  -- `_attach_partial_vertex`
  unfoldable pub attach_partial_vertex : Option ℕ → Option ℕ → M Core (Unit {0})
  unfolding any_partial
  attach_partial_vertex regset_vertex none = pure tt
  attach_partial_vertex none (some v) = pure tt
  attach_partial_vertex (some u) (some v) = do
    in_data ← prov_data v
    if is_root in_data.origin
        then (do
          attached ← any_partial (← gets (λ s. gt.in_neighbours s.pgm.graph v))
          if attached then pure tt else (do
            curr_data ← prov_data u
            when (is_partial curr_data.origin) (
                modify
                  (λ s. record s { pgm = record s.pgm { graph = gt.add_edge s.pgm.graph u v } }))))
        else pure tt

  -- `_handle_out_of_scope`
  unfoldable pub handle_out_of_scope : Option ℕ → ℕ → M Core (Unit {0})
  handle_out_of_scope none time = pure tt
  handle_out_of_scope (some v) time = do
    in_regs ← gets (λ s. mem_opt v s.reg_nodes)
    if in_regs then pure tt else (do
      d ← prov_data v
      if has_active_memory d then pure tt else put_cap v d (λ c. record c { t_free = pos time }))

  unfoldable pub set_reg : ℤ → Option ℕ → ℕ → M Core (Unit {0})
  unfolding get_reg put_reg attach_partial_vertex handle_out_of_scope
  set_reg index value time = do
    old_vertex ← get_reg index
    attach_partial_vertex old_vertex value
    put_reg index value
    when (not (opt_eq value old_vertex)) (handle_out_of_scope old_vertex time)

  -- The loop of `_recover_paused_reg` from register `i` on: the first vertex that fits.
  unfoldable pub find_compatible : ℤ → Value → ℕ → List (Option ℕ) → M Core (Option ℕ)
  unfolding is_cap_compatible
  find_compatible idx expected i [] = pure none
  find_compatible idx expected i (none ∷ vs) = find_compatible idx expected (i + 1) vs
  find_compatible idx expected i (some v ∷ vs) =
      let rest = find_compatible idx expected (i + 1) vs in
      if int_eq (pos i) idx then rest else (do
        vdata ← gets (λ s. s.pgm.data_of v)
        fits ← of_result (is_cap_compatible vdata expected)
        if fits then pure (some v) else rest)

  -- `self._pause_recovered[idx] = True`
  abbrev pub mark_recovered : ℤ → M Core (Unit {0})
  mark_recovered idx = do
    flags ← gets (λ s. s.pause_recovered)
    i ← of_result (index_of idx flags)
    modify (λ s. record s { pause_recovered = set s.pause_recovered i true })

  -- `_recover_paused_reg`
  unfoldable pub recover_paused_reg : ℤ → Value → ℕ → M Core (Unit {0})
  unfolding find_compatible set_reg is_cap_compatible
  recover_paused_reg idx expected time = do
    node ← get_reg idx
    data_ ← peek_data node
    mark_recovered idx
    fits ← of_result (is_cap_compatible data_ expected)
    if fits then pure tt else (do
      found ← find_compatible idx expected 0 (← gets (λ s. s.reg_nodes))
      set_reg idx found time)

  unfoldable pub has_reg : ℤ → Value → ℕ → Bool → M Core Bool
  unfolding recover_paused_reg get_reg
  has_reg idx expected time allow_root = do
    node ← get_reg idx
    if not (is_some node) then pure false else (do
      blocked ←
          (if allow_root
            then (do d ← prov_data_at node; pure (is_partial d.origin))
            else pure false)
      if blocked then pure false else (do
        flags ← gets (λ s. s.pause_recovered)
        i ← of_result (index_of idx flags)
        recovered ← or_raise (get_elem? flags i) index_error
        if recovered then pure true else (do
          logged ← of_result (cheri_cap expected)
          recover_paused_reg idx expected time
          now ← get_reg idx
          pure (is_some now))))

  unfoldable pub handle_pause : M Core (Unit {0})
  handle_pause = modify (λ s. record s { pause_recovered = replicate (length s.reg_nodes) false })
