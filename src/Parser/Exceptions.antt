-- ===== src/Parser/Exceptions.antt =====
-- The entry of an exception and the return from it, in the class SyscallSubparser
-- (provenance/parser/sub_mips.py).
use cheriplot.Base.Post.{Post, done, failed, Post-bind, Post-mono, Post-result, Post-some, Post-ok}
use cheriplot.Base.{
  none, some, List, Option, ℕ, get_elem?, ◌≡◌, length, ◌≢◌, refl, subst, set, ◌∙◌, ◌<◌, ap, arith,
  sym, get_elem?-set_self, length-set, get_elem?-set_ne,
}
use cheriplot.Graph.{GraphTool}
use cheriplot.Parser.RegisterSet.{get_reg, set_reg}
use cheriplot.Parser.Syscall.{enter_exception, leave_exception}
use cheriplot.Parser.State.{Core, peek_data, index_of, py_index}
use cheriplot.Base.Int.{pos}
use cheriplot.Parser.Registers.{set_reg-IsWritten, index_of-some}
use cheriplot.Base.Errors.{index_error, ok}

-- The registers that the entry leaves: epcc has the vertex of pcc, and pcc that of kcc.
abbrev IsEntered : List (Option ℕ) → List (Option ℕ) → Type 0
IsEntered old new =
    (get_elem? new 63 ≡ get_elem? old 64)
    × (get_elem? new 64 ≡ get_elem? old 61)
    × (length new ≡ length old)
    × ((i : ℕ) → i ≢ 63 → i ≢ 64 → get_elem? new i ≡ get_elem? old i)

pos_index : (n len m : ℕ) → py_index (pos n) len ≡ some m → (n < len) × (m ≡ n)
unfolding py_index
pos_index n len m e = ground arith

module _ ⦃gt : GraphTool⦄ where
  peek_data-KeepsRegs :
      (v : Option ℕ) (s : Core) → Post (λ _ t. t.reg_nodes ≡ s.reg_nodes) (peek_data v s)
  peek_data-KeepsRegs none s = failed
  peek_data-KeepsRegs (some v) s = done refl

  get_reg-value :
      (n : ℕ) (s : Core)
      → Post
          (λ v t. (t.reg_nodes ≡ s.reg_nodes) × (get_elem? s.reg_nodes n ≡ some v))
          (get_reg (pos n) s)
  unfolding get_reg
  get_reg-value n s = Post-result (index_of (pos n) s.reg_nodes) s _ λ m e.
      Post-some (get_elem? s.reg_nodes m) index_error s λ v k. (
        refl,
        subst (λ i. get_elem? s.reg_nodes i ≡ some v)
            (pos_index n (length s.reg_nodes) m (index_of-some (pos n) s.reg_nodes m e)).1 k,
      )

  pub set_reg-value :
      (n : ℕ) (v : Option ℕ) (time : ℕ) (s : Core)
      → Post
          (λ _ t.
            (get_elem? t.reg_nodes n ≡ some v)
            × (length t.reg_nodes ≡ length s.reg_nodes)
            × ((i : ℕ) → i ≢ n → get_elem? t.reg_nodes i ≡ get_elem? s.reg_nodes i))
          (set_reg (pos n) v time s)
  set_reg-value n v time s = Post-mono (set_reg-IsWritten (pos n) v time s) λ _ t (m, e, same).
      let p = pos_index n (length s.reg_nodes) m e in
      let at : t.reg_nodes ≡ set s.reg_nodes n v = same ∙ ap (λ i. set s.reg_nodes i v) p.1 in
      (
        ap (λ xs. get_elem? xs n) at ∙ get_elem?-set_self s.reg_nodes n v p.0,
        ap length at ∙ length-set s.reg_nodes n v,
        λ i ne. ap (λ xs. get_elem? xs i) at ∙ get_elem?-set_ne s.reg_nodes n i v (λ q. ne (sym q)),
      )

  enter_exception-IsEntered :
      (time : ℕ) (s : Core)
      → Post (λ _ t. IsEntered s.reg_nodes t.reg_nodes) (enter_exception time s)
  unfolding enter_exception
  enter_exception-IsEntered time s = Post-bind (get_reg-value 64 s) λ a s1 (e1, _).
      Post-bind (peek_data-KeepsRegs a s1) λ _ s2 e2.
        Post-bind (get_reg-value 61 s2) λ b s3 (e3, _).
          Post-bind (peek_data-KeepsRegs b s3) λ _ s4 e4.
            Post-bind (get_reg-value 64 s4) λ old s5 (e5, pcc_was).
              Post-bind (set_reg-value 63 old time s5) λ _ s6 epcc_is.
                Post-bind (get_reg-value 61 s6) λ new s7 (e7, kcc_was).
                  Post-mono (set_reg-value 64 new time s7) λ _ t pcc_is.
                    let start = e5 ∙ e4 ∙ e3 ∙ e2 ∙ e1 in
                    (
                      pcc_is.2 63 (λ q. omega (arith, q))
                          ∙ ap (λ xs. get_elem? xs 63) e7
                          ∙ epcc_is.0
                          ∙ sym pcc_was
                          ∙ ap (λ xs. get_elem? xs 64) (e4 ∙ e3 ∙ e2 ∙ e1),
                      pcc_is.0
                          ∙ sym kcc_was
                          ∙ epcc_is.2 61 (λ q. omega (arith, q))
                          ∙ ap (λ xs. get_elem? xs 61) start,
                      pcc_is.1 ∙ ap length e7 ∙ epcc_is.1 ∙ ap length start,
                      λ i n m.
                          pcc_is.2 i m
                          ∙ ap (λ xs. get_elem? xs i) e7
                          ∙ epcc_is.2 i n
                          ∙ ap (λ xs. get_elem? xs i) start,
                    )

  leave_exception-regs :
      (time : ℕ) (s : Core)
      → Post
          (λ _ t.
            (get_elem? t.reg_nodes 64 ≡ get_elem? s.reg_nodes 63)
            × ((i : ℕ) → i ≢ 64 → get_elem? t.reg_nodes i ≡ get_elem? s.reg_nodes i))
          (leave_exception time s)
  unfolding leave_exception
  leave_exception-regs time s = Post-bind (get_reg-value 63 s) λ a s1 (e1, _).
      Post-bind (peek_data-KeepsRegs a s1) λ _ s2 e2.
        Post-bind (get_reg-value 64 s2) λ b s3 (e3, _).
          Post-bind (peek_data-KeepsRegs b s3) λ _ s4 e4.
            Post-bind (get_reg-value 63 s4) λ old s5 (e5, was).
              Post-mono (set_reg-value 64 old time s5) λ _ t now.
                let start = e5 ∙ e4 ∙ e3 ∙ e2 ∙ e1 in
                (
                  now.0 ∙ sym was ∙ ap (λ xs. get_elem? xs 63) (e4 ∙ e3 ∙ e2 ∙ e1),
                  λ i n. now.2 i n ∙ ap (λ xs. get_elem? xs i) start,
                )

  -- The entry of an exception and the return from it that do not raise give pcc its vertex back,
  -- leave that vertex in epcc, and leave the registers other than those two alone.
  pub leave_exception-enter_exception :
      (time time' : ℕ) (s t u : Core)
      → enter_exception time s ≡ ok (tt, t)
      → leave_exception time' t ≡ ok (tt, u)
      → (get_elem? u.reg_nodes 64 ≡ get_elem? s.reg_nodes 64)
        × (get_elem? u.reg_nodes 63 ≡ get_elem? s.reg_nodes 64)
        × ((i : ℕ) → i ≢ 63 → i ≢ 64 → get_elem? u.reg_nodes i ≡ get_elem? s.reg_nodes i)
  leave_exception-enter_exception time time' s t u e e' =
      let a = Post-ok tt t (enter_exception-IsEntered time s) e in
      let b = Post-ok tt u (leave_exception-regs time' t) e' in
      (b.0 ∙ a.0, b.1 63 (λ q. omega (arith, q)) ∙ a.0, λ i n m. b.1 i m ∙ a.3 i n m)
