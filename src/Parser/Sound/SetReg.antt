-- ===== src/Parser/Sound/SetReg.antt =====
-- `set_reg` of the register set keeps the state sound.
use cheriplot.Base.Post.{Post, done, Post-bind, Post-if, Post-when, Post-mono, Post-result}
use cheriplot.Graph.{GraphTool}
use cheriplot.Base.{
  ◌∷◌, ℕ, Option, ◌≡◌, true, false, some, arith, sym, ◌≤◌, ◌∙◌, List, mem_opt, none, refl, not,
  opt_eq, ◌<◌, [],
}
use cheriplot.Parser.State.{Core, put_cap, as_cap}
use cheriplot.Model.Manager.{VertexData, Pgm, prov}
use cheriplot.Model.Vertex.{
  CheriNodeOrigin, ProvenanceVertexData, is_partial, is_root, partial, root, has_active_memory,
}
use cheriplot.Parser.Nodes.{is_violation}
use cheriplot.Parser.RegisterSet.{attach_partial_vertex, any_partial, handle_out_of_scope, set_reg}
use cheriplot.Model.Cap.{CheriCap}
use cheriplot.Parser.Shape.{
  IsNode, IsProvGraph, IsSound, shape, Derives, Next, first_free, Next-refl, Next-trans, frozen,
  Grows-IsNode, Grows,
}
use cheriplot.Parser.Sound.Regs.{
  IsHeld, prov_data-Post, put_data-Post, get_reg-Post, Next-IsHeld, put_reg-Post,
}
use cheriplot.Base.Errors.{ok}
use cheriplot.Base.Int.{ℤ}
use cheriplot.Parser.Sound.Edges.{with_edge-Next}

-- The shape of data whose fields are known.
shape-origin :
    (x : VertexData) (d : ProvenanceVertexData) (o : CheriNodeOrigin) (c : CheriCap)
    → x ≡ prov d
    → shape x ≡ some (o, some c)
    → d.origin ≡ o
shape-origin x d o c e h = ground arith

pub as_cap-some : (x : Option CheriCap) (c : CheriCap) → as_cap x ≡ ok c → x ≡ some c
as_cap-some x c h = ground arith

partial_origin : (o : CheriNodeOrigin) → is_partial o ≡ true → o ≡ partial
partial_origin o h = ground arith

root_origin : (o : CheriNodeOrigin) → is_root o ≡ true → o ≡ root
root_origin o h = ground arith

invalid-is_violation : (c d : CheriCap) → c.valid ≡ false → is_violation c d ≡ ok false
unfolding is_violation
invalid-is_violation c d h = ground arith

module _ ⦃gt : GraphTool⦄ where
  node_shape :
      (p : Pgm) (v : ℕ) (d : ProvenanceVertexData) (o : CheriNodeOrigin)
      → (n : IsNode p v) → p.data_of v ≡ prov d
      → d.origin ≡ o
      → shape (p.data_of v) ≡ some (o, some n.cap)
  node_shape p v d o n e h =
      rw (sym (sym (shape-origin (p.data_of v) d n.origin n.cap e n.has_shape) ∙ h)) n.has_shape

  -- The edge that `_attach_partial_vertex` adds.
  attach-Derives :
      (p : Pgm) (u v : ℕ) (du : ProvenanceVertexData)
      → IsProvGraph p
      → IsNode p u
      → (nv : IsNode p v) → nv.origin ≡ root
      → p.data_of u ≡ prov du
      → is_partial du.origin ≡ true
      → Derives p u v
  attach-Derives p u v du g nu nv hv eu hu =
      let bu =
        g.partials u nu.cap (node_shape p u du partial nu eu (partial_origin du.origin hu)) in
      let bv : first_free ≤ v = g.roots v nv.cap (rw (sym hv) nv.has_shape) in
      record {
        parent = nu;
        child = nv;
        older = omega (arith, bu.0, bv);
        monotone = invalid-is_violation nu.cap nv.cap bu.1;
      }

  grown-origin :
      {p q : Pgm} {v : ℕ} (d : ProvenanceVertexData) (g : Grows p q) (n : IsNode q v)
      → v < gt.num_vertices p.graph
      → p.data_of v ≡ prov d
      → d.origin ≡ root
      → n.origin ≡ root
  grown-origin {p} {q} {v} d g n b e h =
      sym (shape-origin (p.data_of v) d n.origin n.cap e (sym (g.kept v b) ∙ n.has_shape)) ∙ h

  any_partial-Post :
      (ns : List ℕ) (s : Core) → IsSound s → Post (λ _ t. Next s t) (any_partial ns s)
  unfolding any_partial
  any_partial-Post [] s h = done (Next-refl h)
  any_partial-Post (n ∷ ns) s h = Post-bind (prov_data-Post n s h) λ d t (k, e).
      Post-if (is_partial d.origin) _ _ t (λ _. done k)
        λ _. Post-mono (any_partial-Post ns t k.sound) λ _ u l. Next-trans k l

  attach_partial_vertex-Post :
      (old value : Option ℕ) (s : Core)
      → IsSound s
      → IsHeld s old
      → IsHeld s value
      → Post (λ _ t. Next s t) (attach_partial_vertex old value s)
  unfolding attach_partial_vertex
  attach_partial_vertex-Post old none s h ho hv = done (Next-refl h)
  attach_partial_vertex-Post none (some v) s h ho hv = done (Next-refl h)
  attach_partial_vertex-Post (some u) (some v) s h nu nv =
      Post-bind (prov_data-Post v s h) λ dv t (k, ev).
        Post-if (is_root dv.origin) _ _ t
          (λ is_r.
            Post-bind (any_partial-Post (gt.in_neighbours t.pgm.graph v) t k.sound)
              λ attached t' k'.
                Post-if attached _ _ t' (λ _. done (Next-trans k k'))
                  λ _. Post-bind (prov_data-Post u t' k'.sound) λ du t'' (k'', eu).
                    let all = Next-trans k (Next-trans k' k'') in
                    let nv' = Grows-IsNode all.grows nv in
                    Post-when (is_partial du.origin) _ t''
                      (λ is_p. done (
                        Next-trans all (
                          with_edge-Next u v _ _ _ _ t'' all.sound nv'.below λ _.
                            attach-Derives t''.pgm u v du all.sound.graph
                              (Grows-IsNode all.grows nu) nv'
                              (grown-origin dv (Next-trans k' k'').grows nv'
                                (Grows-IsNode k.grows nv).below ev (root_origin dv.origin is_r))
                              eu is_p)))
                      all)
          (λ _. done k)

  pub put_cap-Post :
      (v : ℕ) (d : ProvenanceVertexData) (f : CheriCap → CheriCap) (s : Core)
      → IsSound s
      → s.pgm.data_of v ≡ prov d
      → ((c : CheriCap) → frozen (f c) ≡ frozen c)
      → Post (λ _ t. Next s t) (put_cap v d f s)
  put_cap-Post v d f s h e same = Post-result (as_cap d.cap) s _ λ c k.
      put_data-Post v (record d { cap = some (f c) }) s h
        (rw e (rw (as_cap-some d.cap c k) (rw (same c) refl)))

  handle_out_of_scope-Post :
      (v : Option ℕ) (time : ℕ) (s : Core)
      → IsSound s
      → Post (λ _ t. Next s t) (handle_out_of_scope v time s)
  unfolding handle_out_of_scope
  handle_out_of_scope-Post none time s h = done (Next-refl h)
  handle_out_of_scope-Post (some v) time s h =
      Post-if (mem_opt v s.reg_nodes) _ _ s (λ _. done (Next-refl h))
        λ _. Post-bind (prov_data-Post v s h) λ d t (k, e).
          Post-if (has_active_memory d) _ _ t (λ _. done k)
            λ _. Post-mono (put_cap-Post v d _ t k.sound e λ c. refl) λ _ u l. Next-trans k l

  pub set_reg-Post :
      (i : ℤ) (v : Option ℕ) (time : ℕ) (s : Core)
      → IsSound s
      → IsHeld s v
      → Post (λ _ t. Next s t) (set_reg i v time s)
  unfolding set_reg
  set_reg-Post i v time s h hv = Post-bind (get_reg-Post i s h) λ old t (k, ho).
      Post-bind (attach_partial_vertex-Post old v t k.sound ho (Next-IsHeld v k hv)) λ _ t' k'.
        let both = Next-trans k k' in
        Post-bind (put_reg-Post i v t' k'.sound (Next-IsHeld v both hv)) λ _ t'' k''.
          let all = Next-trans both k'' in
          Post-when (not (opt_eq v old)) _ t''
            (λ _.
              Post-mono (handle_out_of_scope-Post old time t'' all.sound) λ _ u l. Next-trans all l)
            all
