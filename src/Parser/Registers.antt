-- ===== src/Parser/Registers.antt =====
-- What `set_reg` (provenance/parser/base.py) does to the registers and to the vertex they lose.
use cheriplot.Base.Post.{
  Post, done, failed, Post-bind, Post-if, Post-mono, Post-when, Post-result, Post-some, Post-ok,
}
use cheriplot.Base.{
  [], ◌∷◌, none, some, ℕ, List, Option, ◌≡◌, mem_opt, ◌∙◌, length, refl, set, get_elem?, arith,
  subst, not, opt_eq, sym,
}
use cheriplot.Graph.{GraphTool}
use cheriplot.Base.Errors.{M, Result, of_result, ok, err, index_error}
use cheriplot.Parser.RegisterSet.{
  any_partial, attach_partial_vertex, handle_out_of_scope, set_reg, get_reg, put_reg,
}
use cheriplot.Parser.State.{Core, prov_data, py_index, as_cap, as_prov, index_of}
use cheriplot.Model.Vertex.{ProvenanceVertexData, is_partial, is_root, has_active_memory}
use cheriplot.Base.Int.{ℤ}

pub index_of-some :
    (i : ℤ) (xs : List (Option ℕ)) (n : ℕ) → index_of i xs ≡ ok n → py_index i (length xs) ≡ some n
index_of-some i xs n e = ground arith

module _ ⦃gt : GraphTool⦄ where
  -- The step leaves the registers alone.
  abbrev KeepsRegs : {A : Type 0} → M Core A → Type 0
  KeepsRegs m = (s : Core) → Post (λ _ t. t.reg_nodes ≡ s.reg_nodes) (m s)

  pub prov_data-KeepsRegs : (v : ℕ) → KeepsRegs (prov_data v)
  prov_data-KeepsRegs v s = go (as_prov (s.pgm.data_of v))
    where
      go :
          (r : Result ProvenanceVertexData)
          → Post (λ _ t. t.reg_nodes ≡ s.reg_nodes) (of_result r s)
      go (ok d) = done refl
      go (err e) = failed

  any_partial-KeepsRegs : (ns : List ℕ) → KeepsRegs (any_partial ns)
  unfolding any_partial
  any_partial-KeepsRegs [] s = done refl
  any_partial-KeepsRegs (n ∷ ns) s = Post-bind (prov_data-KeepsRegs n s) λ d t h.
      Post-if (is_partial d.origin) _ _ t (λ _. done h)
        λ _. Post-mono (any_partial-KeepsRegs ns t) λ _ u k. k ∙ h

  attach_partial_vertex-KeepsRegs : (old v : Option ℕ) → KeepsRegs (attach_partial_vertex old v)
  unfolding attach_partial_vertex
  attach_partial_vertex-KeepsRegs old none s = done refl
  attach_partial_vertex-KeepsRegs none (some v) s = done refl
  attach_partial_vertex-KeepsRegs (some u) (some v) s = Post-bind (prov_data-KeepsRegs v s) λ d t h.
      Post-if (is_root d.origin) _ _ t
        (λ _. Post-bind (any_partial-KeepsRegs (gt.in_neighbours t.pgm.graph v) t) λ b t1 h1.
          Post-if b _ _ t1 (λ _. done (h1 ∙ h))
            λ _. Post-bind (prov_data-KeepsRegs u t1) λ d' t2 h2.
              Post-when (is_partial d'.origin) _ t2 (λ _. done (h2 ∙ h1 ∙ h)) (h2 ∙ h1 ∙ h))
        (λ _. done h)

  handle_out_of_scope-KeepsRegs : (v : Option ℕ) (time : ℕ) → KeepsRegs (handle_out_of_scope v time)
  unfolding handle_out_of_scope
  handle_out_of_scope-KeepsRegs none time s = done refl
  handle_out_of_scope-KeepsRegs (some v) time s =
      Post-if (mem_opt v s.reg_nodes) _ _ s (λ _. done refl)
        λ _. Post-bind (prov_data-KeepsRegs v s) λ d t h.
          Post-if (has_active_memory d) _ _ t (λ _. done h)
            λ _. Post-result (as_cap d.cap) t _ λ c _. done h

  get_reg-KeepsRegs : (index : ℤ) → KeepsRegs (get_reg index)
  unfolding get_reg
  get_reg-KeepsRegs index s =
      Post-result (index_of index s.reg_nodes) s _
        λ n _. Post-some (get_elem? s.reg_nodes n) index_error s λ v _. refl

  -- The registers after a write.
  abbrev pub IsWritten : ℤ → Option ℕ → List (Option ℕ) → List (Option ℕ) → Type 0
  IsWritten index v old new = (n : ℕ) × (py_index index (length old) ≡ some n) × (new ≡ set old n v)

  put_reg-IsWritten :
      (index : ℤ) (v : Option ℕ) (s : Core)
      → Post (λ _ t. IsWritten index v s.reg_nodes t.reg_nodes) (put_reg index v s)
  unfolding put_reg
  put_reg-IsWritten index v s =
      Post-result (index_of index s.reg_nodes) s _
        λ n e. done (n, index_of-some index s.reg_nodes n e, refl)

  pub set_reg-IsWritten :
      (index : ℤ) (v : Option ℕ) (time : ℕ) (s : Core)
      → Post (λ _ t. IsWritten index v s.reg_nodes t.reg_nodes) (set_reg index v time s)
  unfolding set_reg
  set_reg-IsWritten index v time s = Post-bind (get_reg-KeepsRegs index s) λ old t h.
      Post-bind (attach_partial_vertex-KeepsRegs old v t) λ _ t1 h1.
        Post-bind (put_reg-IsWritten index v t1) λ _ t2 r.
          let written = subst (λ xs. IsWritten index v xs t2.reg_nodes) (h1 ∙ h) r in
          Post-when (not (opt_eq v old)) _ t2
            (λ _.
              Post-mono (handle_out_of_scope-KeepsRegs old time t2)
                λ _ u k. subst (λ xs. IsWritten index v s.reg_nodes xs) (sym k) written)
            written

  -- `set_reg` that does not raise writes the value to its register, where a negative index counts
  -- from the end, and leaves the other registers alone.
  pub set_reg-reg_nodes :
      (index : ℤ) (v : Option ℕ) (time : ℕ) (s t : Core)
      → set_reg index v time s ≡ ok (tt, t)
      → (n : ℕ) × (py_index index (length s.reg_nodes) ≡ some n)
        × (t.reg_nodes ≡ set s.reg_nodes n v)
  set_reg-reg_nodes index v time s t e = Post-ok tt t (set_reg-IsWritten index v time s) e
