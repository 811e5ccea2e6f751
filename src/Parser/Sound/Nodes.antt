-- ===== src/Parser/Sound/Nodes.antt =====
-- The two ways to make a vertex of the provenance layer keep the state sound.
use cheriplot.Base.Post.{Post, done, failed, Post-bind, Post-if, Post-mono, Post-result}
use cheriplot.Graph.{GraphTool}
use cheriplot.Parser.State.{Core, as_cap}
use cheriplot.Parser.Nodes.{
  root_data, add_prov_vertex, make_root_node, node_source, is_violation, derive_from, make_node,
  from_operand,
}
use cheriplot.Model.Vertex.{ProvenanceVertexData, root, partial, CheriNodeOrigin}
use cheriplot.Trace.{Entry, Instruction, Value, operand_at, value}
use cheriplot.Model.Cap.{CheriCap, cheri_cap, bound}
use cheriplot.Parser.Sound.Graph.{IsNew, with_vertex-Next}
use cheriplot.Base.{
  ℕ, Option, true, ◌≡◌, ◌≢◌, update_self, some, arith, false, none, refl, ◌<◌, not, ◌∙◌,
}
use cheriplot.Model.Manager.{prov, Pgm}
use cheriplot.Parser.Shape.{
  IsSound, Next, IsNode, frozen, Next-refl, Next-trans, Grows-IsNode, Derives,
}
use cheriplot.Base.Int.{ℤ}
use cheriplot.Base.Errors.{ok}
use cheriplot.Parser.Sound.Regs.{get_reg-Post, IsHeld, prov_data-Post}
use cheriplot.Parser.Sound.Edges.{with_edge-Next}
use cheriplot.Parser.Sound.SetReg.{as_cap-some}
use cheriplot.Parser.Sound.HasReg.{has_reg-Post}

frozen-is_violation : (a b : CheriCap) → is_violation (frozen a) (frozen b) ≡ is_violation a b
unfolding is_violation bound
frozen-is_violation a b = refl

module _ ⦃gt : GraphTool⦄ where
  root_data-IsNew :
      (entry : Entry) (c : CheriCap) (time : ℕ) → IsNew (prov (root_data entry c time)) true
  unfolding root_data
  root_data-IsNew entry c time = (root, frozen c, refl, λ e. ground arith)

  data_-IsNew :
      (d : ProvenanceVertexData) (c : CheriCap)
      → as_cap d.cap ≡ ok c
      → d.origin ≢ partial
      → IsNew (prov d) true
  data_-IsNew d c e n = (d.origin, frozen c, rw (as_cap-some d.cap c e) refl, n)

  -- The node that a vertex with known data is.
  abbrev node_of :
      (p : Pgm) (v : ℕ) (d : ProvenanceVertexData) (c : CheriCap)
      → v < gt.num_vertices p.graph
      → p.data_of v ≡ prov d
      → d.cap ≡ some c
      → IsNode p v
  node_of p v d c below e k = record {
    origin = d.origin;
    cap = frozen c;
    below = below;
    has_shape = rw e (rw k refl);
  }

  -- The vertex that a core step adds has an index below the number of vertices.
  pub add_prov_vertex-Next :
      (d : ProvenanceVertexData) (s : Core)
      → IsNew (prov d) true
      → IsSound s
      → Next s (add_prov_vertex d s)
  unfolding add_prov_vertex
  add_prov_vertex-Next d s n h = with_vertex-Next (prov d) true s.pgm.layer_call s n h

  add_prov_vertex-IsNode :
      (d : ProvenanceVertexData) (s : Core)
      → IsNew (prov d) true
      → IsSound s
      → IsNode (add_prov_vertex d s).pgm (gt.num_vertices s.pgm.graph)
  unfolding add_prov_vertex
  add_prov_vertex-IsNode d s n h =
      (add_prov_vertex-Next d s n h).sound.graph.nodes (gt.num_vertices s.pgm.graph)
        (update_self s.pgm.layer_prov (gt.num_vertices s.pgm.graph) true)

  pub make_root_node-Post :
      (entry : Entry) (v : Value) (time : ℕ) (s : Core)
      → IsSound s
      → Post (λ n t. Next s t × IsNode t.pgm n) (make_root_node entry v time s)
  unfolding make_root_node
  make_root_node-Post entry v time s h = Post-result (cheri_cap v) s _ λ c e.
      let new = root_data-IsNew entry c time in
      done (
        add_prov_vertex-Next (root_data entry c time) s new h,
        add_prov_vertex-IsNode (root_data entry c time) s new h,
      )

  node_source-Post :
      (inst : Instruction) (r : Option ℤ) (s : Core)
      → IsSound s
      → Post (λ _ t. Next s t) (node_source inst r s)
  unfolding node_source
  node_source-Post inst none s h =
      Post-result (operand_at 1 inst) s _
        λ op e. Post-result (value inst op) s _ λ v e'. done (Next-refl h)
  node_source-Post inst (some i) s h = Post-bind (get_reg-Post i s h) λ node t (k, _). done k

  derived-Derives :
      (d pdata : ProvenanceVertexData) (u : ℕ) (c pcap : CheriCap) (s : Core)
      → IsSound s
      → IsNew (prov d) true
      → u < gt.num_vertices s.pgm.graph
      → s.pgm.data_of u ≡ prov pdata
      → pdata.cap ≡ some pcap
      → d.cap ≡ some c
      → is_violation pcap c ≡ ok false
      → Derives (add_prov_vertex d s).pgm u (gt.num_vertices s.pgm.graph)
  unfolding add_prov_vertex Grows-IsNode
  derived-Derives d pdata u c pcap s h new below e k k' mono =
      let t = add_prov_vertex d s in
      let v = gt.num_vertices s.pgm.graph in
      let next : Next s t = add_prov_vertex-Next d s new h in
      record {
        parent = Grows-IsNode next.grows (node_of s.pgm u pdata pcap below e k);
        child =
            node_of t.pgm v d c (omega (arith, gt.num_vertices-add_vertex s.pgm.graph))
              (update_self s.pgm.data_of v (prov d)) k';
        older = below;
        monotone = frozen-is_violation pcap c ∙ mono;
      }

  -- The new vertex with its edge from the parent.
  derived-Next :
      (d : ProvenanceVertexData) (u : ℕ) (s : Core)
      → IsSound s
      → IsNew (prov d) true
      → Derives (add_prov_vertex d s).pgm u (gt.num_vertices s.pgm.graph)
      → let t = add_prov_vertex d s in
        let v = gt.num_vertices s.pgm.graph in
        let t' : Core = record t { pgm = record t.pgm { graph = gt.add_edge t.pgm.graph u v } } in
        Next s t' × IsNode t'.pgm v
  derived-Next d u s h new derives =
      let t = add_prov_vertex d s in
      let v = gt.num_vertices s.pgm.graph in
      let next = add_prov_vertex-Next d s new h in
      let child = add_prov_vertex-IsNode d s new h in
      let edge = with_edge-Next u v _ _ _ _ t next.sound child.below λ _. derives in
      (Next-trans next edge, Grows-IsNode edge.grows child)

  parent-Post :
      (d : ProvenanceVertexData) (parent : Option ℕ) (s : Core)
      → IsSound s
      → IsHeld s parent
      → d.origin ≢ partial
      → Post (λ v t. Next s t × IsNode t.pgm v) (derive_from d parent s)
  unfolding derive_from
  parent-Post d none s h held n = failed
  parent-Post d (some u) s h nu n = Post-bind (prov_data-Post u s h) λ pdata t (k, e).
      Post-result (as_cap pdata.cap) t _ λ pcap e1. Post-result (as_cap d.cap) t _ λ dcap e2.
        Post-result (is_violation pcap dcap) t _ λ bad e3.
          Post-if bad _ _ t (λ _. failed)
            λ good.
              let new = data_-IsNew d dcap e2 n in
              let r = derived-Next d u t k.sound new (
                derived-Derives d pdata u dcap pcap t k.sound new (Grows-IsNode k.grows nu).below e
                  (as_cap-some pdata.cap pcap e1) (as_cap-some d.cap dcap e2) (rw good at e3)) in
              done (Next-trans k r.0, r.1)

  pub make_node-Post :
      (inst : Instruction) (origin : CheriNodeOrigin) (r : Option ℤ) (s : Core)
      → IsSound s
      → origin ≢ partial
      → Post (λ v t. Next s t × IsNode t.pgm v) (make_node inst origin r s)
  unfolding make_node
  make_node-Post inst origin r s h n = Post-result (operand_at 0 inst) s _ λ dst e.
      Post-result (from_operand inst dst) s _ λ fresh e1.
        Post-bind (node_source-Post inst r s h) λ src t k.
          Post-bind (has_reg-Post src.0 src.1 inst.entry.cycles false t k.sound) λ found t1 k1.
            Post-if (not found) _ _ t1 (λ _. failed)
              λ _. Post-bind (get_reg-Post src.0 t1 k1.sound) λ parent t2 (k2, held).
                Post-mono (parent-Post (record fresh { origin = origin }) parent t2 k2.sound held n)
                  λ v u (l, nv). (Next-trans k (Next-trans k1 (Next-trans k2 l)), nv)
