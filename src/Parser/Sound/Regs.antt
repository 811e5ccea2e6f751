-- ===== src/Parser/Sound/Regs.antt =====
-- The operations of the register set and of the memory map keep the state sound.
use cheriplot.Base.Post.{Post, done, failed, Post-result, Post-some}
use cheriplot.Graph.{GraphTool}
use cheriplot.Parser.State.{Core, prov_data, put_data, index_of, as_prov}
use cheriplot.Parser.RegisterSet.{get_reg, put_reg}
use cheriplot.Base.{
  none, some, ◌∷◌, [], zero, suc, ℕ, Option, ◌≡◌, List, get_elem?, set, subst, ℕ_discrete, sym,
  get_elem?-set_ne, ◌∙◌, refl,
}
use cheriplot.Base.Int.{ℤ}
use cheriplot.Parser.Shape.{IsSound, Next, shape, IsNode, Grows-IsNode, Grows-refl, Next-refl}
use cheriplot.Model.Vertex.{ProvenanceVertexData}
use cheriplot.Base.Errors.{of_result, index_error}
use cheriplot.Model.Manager.{prov, VertexData, call, absent}
use cheriplot.Parser.Sound.Graph.{set_data-Next}

-- What a written register holds.
set_value :
    (xs : List (Option ℕ)) (n : ℕ) (v : Option ℕ) (u : ℕ)
    → get_elem? (set xs n v) n ≡ some (some u)
    → v ≡ some u
set_value [] n v u e = cc
set_value (x ∷ xs) zero v u e = cc
set_value (x ∷ xs) (suc n) v u e = set_value xs n v u e

module _ ⦃gt : GraphTool⦄ where
  -- A value that a register may hold.
  abbrev pub IsHeld : Core → Option ℕ → Type 0
  IsHeld s none = Unit {0}
  IsHeld s (some v) = IsNode s.pgm v

  pub Next-IsHeld : {s t : Core} (v : Option ℕ) → Next s t → IsHeld s v → IsHeld t v
  Next-IsHeld none n h = tt
  Next-IsHeld (some v) n h = Grows-IsNode n.grows h

  IsHeld-reg :
      (s : Core) (n : ℕ) (v : Option ℕ) → IsSound s → get_elem? s.reg_nodes n ≡ some v → IsHeld s v
  IsHeld-reg s n none h k = tt
  IsHeld-reg s n (some v) h k = h.regs n v k

  pub get_reg-Post :
      (i : ℤ) (s : Core) → IsSound s → Post (λ v t. Next s t × IsHeld t v) (get_reg i s)
  unfolding get_reg
  get_reg-Post i s h = Post-result (index_of i s.reg_nodes) s _ λ n e.
      Post-some (get_elem? s.reg_nodes n) index_error s λ v k. (Next-refl h, IsHeld-reg s n v h k)

  pub held_some : (s : Core) (v : Option ℕ) (u : ℕ) → IsHeld s v → v ≡ some u → IsNode s.pgm u
  held_some s none u k e = cc
  held_some s (some w) u k e = subst (λ x. IsHeld s x) e k

  set_nodes-regs :
      (s : Core) (n : ℕ) (v : Option ℕ)
      → IsSound s
      → IsHeld s v
      → (i u : ℕ) → get_elem? (set s.reg_nodes n v) i ≡ some (some u)
      → IsNode s.pgm u
  set_nodes-regs s n v h k i u e = elim (ℕ_discrete n i) [
    | no ne ↦ h.regs i u (sym (get_elem?-set_ne s.reg_nodes n i v ne) ∙ e)
    | yes same ↦ held_some s v u k (set_value s.reg_nodes n v u (rw (sym same) at e))
  ]

  set_nodes-Next :
      (s : Core) (n : ℕ) (v : Option ℕ)
      → IsSound s
      → IsHeld s v
      → Next s (record s { reg_nodes = set s.reg_nodes n v })
  set_nodes-Next s n v h k = record {
    sound = record { graph = h.graph; regs = set_nodes-regs s n v h k; mem = h.mem; keys = h.keys };
    grows = Grows-refl s.pgm;
  }

  pub put_reg-Post :
      (i : ℤ) (v : Option ℕ) (s : Core)
      → IsSound s
      → IsHeld s v
      → Post (λ _ t. Next s t) (put_reg i v s)
  unfolding put_reg
  put_reg-Post i v s h k =
      Post-result (index_of i s.reg_nodes) s _ λ n e. done (set_nodes-Next s n v h k)

  pub prov_data-Post :
      (v : ℕ) (s : Core)
      → IsSound s
      → Post (λ d t. Next s t × (t.pgm.data_of v ≡ prov d)) (prov_data v s)
  prov_data-Post v s h = go (s.pgm.data_of v) refl
    where
      go :
          (x : VertexData)
          → s.pgm.data_of v ≡ x
          → Post (λ d t. Next s t × (t.pgm.data_of v ≡ prov d)) (of_result (as_prov x) s)
      go absent e = failed
      go (prov d) e = done (Next-refl h, e)
      go (call d) e = failed

  pub put_data-Post :
      (v : ℕ) (d : ProvenanceVertexData) (s : Core)
      → IsSound s
      → shape (prov d) ≡ shape (s.pgm.data_of v)
      → Post (λ _ t. Next s t) (put_data v d s)
  put_data-Post v d s h e = done (set_data-Next s v (prov d) e h)
