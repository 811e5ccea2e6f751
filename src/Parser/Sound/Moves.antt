-- ===== src/Parser/Sound/Moves.antt =====
-- The callbacks that derive or move capabilities keep the shared state sound.
use cheriplot.Base.Post.{
  Post, done, Post-result, Post-cases, Post-when, Post-if, Post-bind, Post-mono,
}
use cheriplot.Graph.{GraphTool}
use cheriplot.Trace.{
  Instruction, Operand, caphw_index, value, op_n, cap_index, operand, is_capability,
}
use cheriplot.Parser.Arith.{cap_arith_core, cap_arith_unknown}
use cheriplot.Parser.Clear.{clear_loop, mask_bit}
use cheriplot.Parser.Hardware.{handle_cpreg_get, handle_cpreg_set, cgetpcc_core}
use cheriplot.Model.Vertex.{CheriNodeOrigin, partial, is_partial}
use cheriplot.Base.{ℕ, Option, ◌≢◌, suc, false, true, some, none, not, ◌+◌, zero}
use cheriplot.Parser.State.{Core, as_prov}
use cheriplot.Parser.Shape.{IsSound, Next, Next-refl, Next-trans}
use cheriplot.Base.Int.{ℤ, ◌+ℤ◌, pos}
use cheriplot.Parser.Sound.Steps.{
  Next-bind, Held-bind, pure-Post, root_reg-Post, copy_reg-Post, assert_matches-Post,
}
use cheriplot.Parser.Derive.{derive}
use cheriplot.Parser.Defer.{operand_value, is_nothing, as_register}
use cheriplot.Parser.Sound.HasReg.{has_reg-Post, peek_data-Post, prov_data_at-Post}
use cheriplot.Parser.Sound.Nodes.{make_node-Post, make_root_node-Post}
use cheriplot.Parser.Sound.Regs.{get_reg-Post, Next-IsHeld}
use cheriplot.Parser.RegisterSet.{pcc}
use cheriplot.Parser.Sound.SetReg.{set_reg-Post}

module _ ⦃gt : GraphTool⦄ where
  pub derive-Post :
      (inst : Instruction) (origin : CheriNodeOrigin) (r : Option ℤ) (s : Core)
      → IsSound s
      → origin ≢ partial
      → Post (λ _ t. Next s t) (derive inst origin r s)
  derive-Post inst origin r s h n = Held-bind (make_node-Post inst origin r s h n) λ node t k held.
      Post-result (operand 0 inst) t _
        λ dst _. set_reg-Post (cap_index dst) (some node) inst.entry.cycles t k.sound held

  pub cap_arith_core-Post :
      (inst : Instruction) (dst : Operand) (s : Core)
      → IsSound s
      → Post (λ _ t. Next s t) (cap_arith_core inst dst s)
  unfolding cap_arith_core cap_arith_unknown
  cap_arith_core-Post inst dst s h =
      Next-bind
        (Post-cases (op_n 1 inst) _ _ s (λ _. pure-Post false s h)
          λ src _.
            Post-if (is_capability src) _ _ s
              (λ _.
                Post-result (value inst dst) s _
                  λ v _. has_reg-Post (cap_index src) v inst.entry.cycles true s h)
              (λ _. pure-Post false s h))
        λ found t k.
          Post-if found _ _ t
            (λ _.
              Post-result (operand 1 inst) t _
                λ src _. copy_reg-Post (cap_index src) (cap_index dst) inst.entry.cycles t k)
            (λ _. Post-result (value inst dst) t _ λ v _. Post-result (as_register v) t _ λ r _.
              Post-if r.valid _ _ t
                (λ _.
                  Post-when (inst.regset.valid_caps (cap_index dst)) _ t
                    (λ _.
                      Held-bind (make_root_node-Post inst.entry v inst.entry.cycles t k)
                        λ node t1 k1 held. Post-result (operand 1 inst) t1 _ λ src _.
                          Post-bind
                            (set_reg-Post (cap_index src) (some node) inst.entry.cycles t1 k1.sound
                              held)
                            λ _ t2 k2.
                              Post-mono
                                (set_reg-Post (cap_index dst) (some node) inst.entry.cycles t2
                                  k2.sound (Next-IsHeld (some node) k2 held))
                                λ _ u l. Next-trans k2 l)
                    (Next-refl k))
                (λ _. set_reg-Post (cap_index dst) none inst.entry.cycles t k tt))

  pub clear_loop-Post :
      (n bit : ℕ) (reg : ℕ → ℤ) (mask : ℤ) (time : ℕ) (s : Core)
      → IsSound s
      → Post (λ _ t. Next s t) (clear_loop n bit reg mask time s)
  unfolding clear_loop
  clear_loop-Post zero bit reg mask time s h = done (Next-refl h)
  clear_loop-Post (suc n) bit reg mask time s h =
      Next-bind
        (Post-when (mask_bit mask bit) _ s (λ _. set_reg-Post (reg bit) none time s h tt)
          (Next-refl h))
        λ _ t k. clear_loop-Post n (bit + 1) reg mask time t k

  pub handle_cpreg_get-Post :
      (dst hwr : Operand) (inst : Instruction) (s : Core)
      → IsSound s
      → Post (λ _ t. Next s t) (handle_cpreg_get dst hwr inst s)
  unfolding handle_cpreg_get
  handle_cpreg_get-Post dst hwr inst s h =
      let num = caphw_index hwr +ℤ pos 32 in
      let time = inst.entry.cycles in
      Held-bind (get_reg-Post num s h) λ node t0 n0 _.
        Next-bind (peek_data-Post node t0 n0.sound) λ src_data t k.
          Post-result (value inst dst) t _ λ v _.
            Next-bind
              (Post-if (is_nothing v) _ _ t
                (λ _. Post-result (as_prov src_data) t _ λ d _. pure-Post (is_partial d.origin) t k)
                (λ _. pure-Post false t k))
              λ origin t1 k1.
                Post-if origin _ _ t1 (λ _. done (Next-refl k1))
                  λ _. Next-bind (has_reg-Post num v time true t1 k1) λ known t2 k2.
                    Next-bind
                      (Post-when (not known) _ t2 (λ _. root_reg-Post inst.entry v num time t2 k2)
                        (Next-refl k2))
                      λ _ t3 k3.
                        Next-bind
                          (Post-when (not (is_nothing v)) _ t3
                            (λ _. Held-bind (get_reg-Post num t3 k3) λ node1 t4 n4 _.
                              Next-bind (prov_data_at-Post node1 t4 n4.sound)
                                λ d t5 k5. assert_matches-Post d v t5 k5)
                            (Next-refl k3))
                          λ _ t4 k4. copy_reg-Post num (cap_index dst) time t4 k4

  pub handle_cpreg_set-Post :
      (hwr src : Operand) (inst : Instruction) (s : Core)
      → IsSound s
      → Post (λ _ t. Next s t) (handle_cpreg_set hwr src inst s)
  unfolding handle_cpreg_set
  handle_cpreg_set-Post hwr src inst s h = Post-result (value inst src) s _ λ v _.
      Next-bind (has_reg-Post (cap_index src) v inst.entry.cycles true s h) λ known t k.
        Next-bind
          (Post-when (not known) _ t
            (λ _.
              Post-result (value inst hwr) t _
                λ x _. root_reg-Post inst.entry x (cap_index src) inst.entry.cycles t k)
            (Next-refl k))
          λ _ t1 k1.
            copy_reg-Post (cap_index src) (caphw_index hwr +ℤ pos 32) inst.entry.cycles t1 k1

  pub cgetpcc_core-Post :
      (inst : Instruction) (s : Core) → IsSound s → Post (λ _ t. Next s t) (cgetpcc_core inst s)
  unfolding cgetpcc_core
  cgetpcc_core-Post inst s h = Post-result (operand_value 0 inst) s _ λ v _.
      Next-bind (has_reg-Post pcc v inst.entry.cycles true s h) λ known t k.
        Next-bind
          (Post-when (not known) _ t (λ _. root_reg-Post inst.entry v pcc inst.entry.cycles t k)
            (Next-refl k))
          λ _ t1 k1. Held-bind (get_reg-Post pcc t1 k1) λ node t2 n2 _.
            Next-bind (prov_data_at-Post node t2 n2.sound) λ d t3 k3.
              Next-bind (assert_matches-Post d v t3 k3) λ _ t4 k4.
                Post-result (operand 0 inst) t4 _
                  λ dst _. copy_reg-Post pcc (cap_index dst) inst.entry.cycles t4 k4
