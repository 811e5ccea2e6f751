-- ===== src/Parser/Cleared.antt =====
-- The registers that `scan_cclearhi` and `scan_cclearlo` clear, in the class
-- PointerProvenanceSubparser (provenance/parser/sub_mips.py).
use cheriplot.Base.Post.{Post, done, Post-bind, Post-choose, Post-mono, Post-ok}
use cheriplot.Base.{
  none, some, ℕ, List, Option, get_elem?, if◌then◌else◌, ◌≡◌, leb, ◌==◌, ◌+◌, ◌&&◌, suc, arith, ltb,
  ◌-◌, ◌∙◌, zero, false, true, ℕ_discrete, ◌≢◌, ap,
}
use cheriplot.Graph.{GraphTool}
use cheriplot.Parser.Clear.{clear_loop, high_register, mask_bit}
use cheriplot.Base.Int.{ℤ}
use cheriplot.Parser.State.{Core}
use cheriplot.Base.Errors.{when, ok}
use cheriplot.Parser.RegisterSet.{set_reg}
use cheriplot.Parser.Exceptions.{set_reg-value}

-- What a register of the upper half holds after the bits from `bit` on, `n` of them, were handled.
abbrev cleared_value : (n bit : ℕ) → ℤ → List (Option ℕ) → ℕ → Option (Option ℕ)
cleared_value n bit mask old i =
    if leb (bit + 16) i && (ltb i (bit + 16 + n) && mask_bit mask (i - 16))
    then some none
    else get_elem? old i

-- One bit.
abbrev bit_value : (bit : ℕ) → ℤ → List (Option ℕ) → ℕ → Option (Option ℕ)
bit_value bit mask old i =
    if i == bit + 16 && mask_bit mask (i - 16) then some none else get_elem? old i

bit-cleared :
    (n bit : ℕ) (mask : ℤ) (old mid : List (Option ℕ)) (i : ℕ)
    → get_elem? mid i ≡ bit_value bit mask old i
    → cleared_value n (bit + 1) mask mid i ≡ cleared_value (suc n) bit mask old i
bit-cleared n bit mask old mid i h = ground (arith, h)

bit_value-unset :
    (bit : ℕ) (mask : ℤ) (old : List (Option ℕ)) (i : ℕ)
    → mask_bit mask bit ≡ false
    → get_elem? old i ≡ bit_value bit mask old i
bit_value-unset bit mask old i h = elim (ℕ_discrete i (bit + 16)) [
  | yes e ↦
      let same : i - 16 ≡ bit = omega (arith, e) in
      let unset : mask_bit mask (i - 16) ≡ false = ap (mask_bit mask) same ∙ h in
      ground (arith, unset)
  | no ne ↦ ground (arith, ne)
]

bit_value-set :
    (bit : ℕ) (mask : ℤ) (old new : List (Option ℕ)) (i : ℕ)
    → mask_bit mask bit ≡ true
    → get_elem? new (bit + 16) ≡ some none
    → ((j : ℕ) → j ≢ bit + 16 → get_elem? new j ≡ get_elem? old j)
    → get_elem? new i ≡ bit_value bit mask old i
bit_value-set bit mask old new i h k others = elim (ℕ_discrete i (bit + 16)) [
  | yes e ↦
      let same : i - 16 ≡ bit = omega (arith, e) in
      let is_set : mask_bit mask (i - 16) ≡ true = ap (mask_bit mask) same ∙ h in
      let now : get_elem? new i ≡ some none = ap (get_elem? new) e ∙ k in
      ground (arith, is_set, now)
  | no ne ↦ let kept : get_elem? new i ≡ get_elem? old i = others i ne in ground (arith, ne, kept)
]

module _ ⦃gt : GraphTool⦄ where
  clear_bit-regs :
      (bit : ℕ) (mask : ℤ) (time : ℕ) (s : Core)
      → Post
          (λ _ t. (i : ℕ) → get_elem? t.reg_nodes i ≡ bit_value bit mask s.reg_nodes i)
          (when (mask_bit mask bit) (set_reg (high_register bit) none time) s)
  clear_bit-regs bit mask time s =
      Post-choose (mask_bit mask bit) _ s
        (λ set_.
          Post-mono (set_reg-value (bit + 16) none time s)
            λ _ t r i. bit_value-set bit mask s.reg_nodes t.reg_nodes i set_ r.0 r.2)
        (λ unset i. bit_value-unset bit mask s.reg_nodes i unset)

  clear_loop-regs :
      (n bit : ℕ) (mask : ℤ) (time : ℕ) (s : Core)
      → Post
          (λ _ t. (i : ℕ) → get_elem? t.reg_nodes i ≡ cleared_value n bit mask s.reg_nodes i)
          (clear_loop n bit high_register mask time s)
  unfolding clear_loop
  clear_loop-regs zero bit mask time s = done (λ i. ground arith)
  clear_loop-regs (suc n) bit mask time s = Post-bind (clear_bit-regs bit mask time s) λ _ t h.
      Post-mono (clear_loop-regs n (bit + 1) mask time t)
        λ _ u k i. k i ∙ bit-cleared n bit mask s.reg_nodes t.reg_nodes i (h i)

  -- `scan_cclearhi` behind its guard: a loop over the 16 bits that does not raise empties the
  -- registers 16 to 31 whose bit is set, and leaves the other registers alone.
  pub clear_loop-reg_nodes :
      (mask : ℤ) (time : ℕ) (s t : Core)
      → clear_loop 16 0 high_register mask time s ≡ ok (tt, t)
      → (i : ℕ)
      → get_elem? t.reg_nodes i ≡ (
          if leb 16 i && (ltb i 32 && mask_bit mask (i - 16))
          then some none
          else get_elem? s.reg_nodes i)
  clear_loop-reg_nodes mask time s t e = Post-ok tt t (clear_loop-regs 16 0 mask time s) e
