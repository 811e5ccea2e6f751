-- ===== src/Parser/Sound/HasReg.antt =====
-- `has_reg` of the register set, with the search that follows a pause, keeps the state sound.
use cheriplot.Base.Post.{
  Post, done, failed, Post-bind, Post-if, Post-mono, Post-result, Post-option,
}
use cheriplot.Graph.{GraphTool}
use cheriplot.Base.Errors.{◌>>=◌, index_error, pure}
use cheriplot.Base.{
  ◌∷◌, Option, Bool, ℕ, List, get_elem?, if◌then◌else◌, ◌≡◌, not, some, is_some, none, ◌+◌, suc, [],
  refl, false,
}
use cheriplot.Parser.State.{Core, peek_data, prov_data_at, index_of}
use cheriplot.Parser.RegisterSet.{
  find_compatible, recover_paused_reg, has_reg, mark_recovered, is_cap_compatible,
}
use cheriplot.Base.Int.{ℤ, int_eq, pos}
use cheriplot.Trace.{Value}
use cheriplot.Parser.Shape.{IsSound, Next, Next-trans, Next-refl, IsNode, Grows-refl}
use cheriplot.Parser.Sound.Regs.{get_reg-Post, prov_data-Post, IsHeld}
use cheriplot.Parser.Sound.SetReg.{set_reg-Post}
use cheriplot.Model.Cap.{cheri_cap}
use cheriplot.Model.Vertex.{is_partial}

module _ ⦃gt : GraphTool⦄ where
  pub peek_data-Post :
      (v : Option ℕ) (s : Core) → IsSound s → Post (λ _ t. Next s t) (peek_data v s)
  peek_data-Post none s h = failed
  peek_data-Post (some v) s h = done (Next-refl h)

  pub prov_data_at-Post :
      (v : Option ℕ) (s : Core) → IsSound s → Post (λ _ t. Next s t) (prov_data_at v s)
  prov_data_at-Post none s h = failed
  prov_data_at-Post (some v) s h = Post-mono (prov_data-Post v s h) λ d t (k, e). k

  find_compatible-Post :
      (idx : ℤ) (x : Value) (i : ℕ) (vs : List (Option ℕ)) (s : Core)
      → IsSound s
      → ((j v : ℕ) → get_elem? vs j ≡ some (some v) → IsNode s.pgm v)
      → Post (λ v t. Next s t × IsHeld t v) (find_compatible idx x i vs s)
  unfolding find_compatible
  find_compatible-Post idx x i [] s h held = done (Next-refl h, tt)
  find_compatible-Post idx x i (none ∷ vs) s h held =
      find_compatible-Post idx x (i + 1) vs s h λ j v k. held (suc j) v k
  find_compatible-Post idx x i (some v ∷ vs) s h held =
      let rest = find_compatible-Post idx x (i + 1) vs s h λ j u k. held (suc j) u k in
      Post-if (int_eq (pos i) idx) _ _ s (λ _. rest)
        λ _.
          Post-result (is_cap_compatible (s.pgm.data_of v) x) s _
            λ fits e. Post-if fits _ _ s (λ _. done (Next-refl h, held 0 v refl)) λ _. rest

  mark_recovered-Post :
      (idx : ℤ) (s : Core) → IsSound s → Post (λ _ t. Next s t) (mark_recovered idx s)
  mark_recovered-Post idx s h = Post-result (index_of idx s.pause_recovered) s _ λ i e.
      done (record {
        sound = record { graph = h.graph; regs = h.regs; mem = h.mem; keys = h.keys };
        grows = Grows-refl s.pgm;
      })

  recover_paused_reg-Post :
      (idx : ℤ) (x : Value) (time : ℕ) (s : Core)
      → IsSound s
      → Post (λ _ t. Next s t) (recover_paused_reg idx x time s)
  unfolding recover_paused_reg
  recover_paused_reg-Post idx x time s h = Post-bind (get_reg-Post idx s h) λ node t (k, _).
      Post-bind (peek_data-Post node t k.sound) λ data_ t1 k1.
        Post-bind (mark_recovered-Post idx t1 k1.sound) λ _ t2 k2.
          let before = Next-trans k (Next-trans k1 k2) in
          Post-result (is_cap_compatible data_ x) t2 _ λ fits e.
            Post-if fits _ _ t2 (λ _. done before)
              λ _.
                Post-bind (find_compatible-Post idx x 0 t2.reg_nodes t2 k2.sound k2.sound.regs)
                  λ v t3 (k3, hv).
                    Post-mono (set_reg-Post idx v time t3 k3.sound hv)
                      λ _ u l. Next-trans before (Next-trans k3 l)

  blocked-Post :
      (allow_root : Bool) (node : Option ℕ) (s : Core)
      → IsSound s
      → Post
          (λ _ t. Next s t)
          ((if allow_root
              then (do d ← prov_data_at node; pure (is_partial d.origin))
              else pure false)
            s)
  blocked-Post b node s h =
      Post-if b _ _ s (λ _. Post-bind (prov_data_at-Post node s h) λ d t k. done k)
        (λ _. done (Next-refl h))

  -- `has_reg` changes no more than the register and the flags of the search.
  pub has_reg-Post :
      (i : ℤ) (x : Value) (time : ℕ) (allow_root : Bool) (s : Core)
      → IsSound s
      → Post (λ _ t. Next s t) (has_reg i x time allow_root s)
  unfolding has_reg
  has_reg-Post i x time allow_root s h = Post-bind (get_reg-Post i s h) λ node t (k, _).
      Post-if (not (is_some node)) _ _ t (λ _. done k)
        λ _. Post-bind (blocked-Post allow_root node t k.sound) λ b t1 k1.
          let both = Next-trans k k1 in
          Post-if b _ _ t1 (λ _. done both)
            λ _. Post-result (index_of i t1.pause_recovered) t1 _ λ n e.
              Post-option (get_elem? t1.pause_recovered n) index_error t1 _ λ recovered e'.
                Post-if recovered _ _ t1 (λ _. done both)
                  λ _. Post-result (cheri_cap x) t1 _ λ c e''.
                    Post-bind (recover_paused_reg-Post i x time t1 k1.sound) λ _ t2 k2.
                      Post-bind (get_reg-Post i t2 k2.sound)
                        λ now t3 (k3, _). done (Next-trans both (Next-trans k2 k3))
