-- ===== src/Parser/Sound/Memory.antt =====
-- The memory map and the callbacks that load, store and dereference keep the shared state sound.
use cheriplot.Base.Post.{
  Post, done, failed, Post-if, Post-bind, Post-cases, Post-result, Post-mono, Post-when,
}
use cheriplot.Graph.{GraphTool}
use cheriplot.Model.Manager.{Pgm, VertexData, prov}
use cheriplot.Parser.VertexMap.{vertex_at, mem_store, mem_load, clear}
use cheriplot.Parser.Memory.{
  overwrite_at, record_dereference, loaded_vertex, clc_core, stored_vertex, record_store,
}
use cheriplot.Parser.State.{Core}
use cheriplot.Base.{
  ℕ, Option, Dict, Bool, lookup, ◌≡◌, none, some, if◌then◌else◌, insert, erase, is_some, true,
  ℕ_discrete, false, subst, opt_eq, refl, mem_opt, ◌||◌, arith, ◌≢◌, IsDict, insert-IsDict,
  erase-IsDict, lookup-insert, lookup-erase, not, sym, ◌∙◌, ap,
}
use cheriplot.Model.Vertex.{
  add_mem_del, add_deref_load, add_event, add_deref_store, add_deref, has_active_memory,
  add_mem_store, add_mem_load, ProvenanceVertexData,
}
use cheriplot.Trace.{Instruction, Value, Entry, operand, cap_index}
use cheriplot.Parser.Shape.{
  IsSound, Next, IsNode, Grows-refl, Next-refl, Next-trans, Grows-IsNode, shape,
}
use cheriplot.Parser.Sound.Regs.{
  IsHeld, get_reg-Post, prov_data-Post, put_data-Post, Next-IsHeld, held_some,
}
use cheriplot.Parser.Sound.Steps.{Held-bind, result-Post, Next-bind, assert_matches-Post, after}
use cheriplot.Base.Int.{ℤ}
use cheriplot.Parser.RegisterSet.{is_cap_compatible}
use cheriplot.Parser.Sound.SetReg.{put_cap-Post, set_reg-Post}
use cheriplot.Parser.Sound.Nodes.{make_root_node-Post}
use cheriplot.Parser.Sound.HasReg.{has_reg-Post}
use cheriplot.Parser.Defer.{operand_value, as_register}
use cheriplot.Parser.Sound.Graph.{set_data-Next}

shape_of :
    (x : VertexData) (d d' : ProvenanceVertexData)
    → x ≡ prov d
    → shape (prov d) ≡ shape (prov d')
    → shape x ≡ shape (prov d')
shape_of x d d' e k = ap shape e ∙ k

inserted : (a k v w : ℕ) (d : Dict ℕ) → a ≡ k → lookup a (insert k v d) ≡ some w → v ≡ w
inserted a k v w d h e = ground (arith, lookup-insert a k v d)

kept : (a k v w : ℕ) (d : Dict ℕ) → a ≢ k → lookup a (insert k v d) ≡ some w → lookup a d ≡ some w
kept a k v w d h e = ground (arith, lookup-insert a k v d)

erased : (a k w : ℕ) (d : Dict ℕ) → IsDict d → lookup a (erase k d) ≡ some w → lookup a d ≡ some w
erased a k w d dict e = ground (arith, lookup-erase a k d dict)

module _ ⦃gt : GraphTool⦄ where
  map_lookup :
      (p : Pgm) (a k v w : ℕ) (d : Dict ℕ)
      → ((b u : ℕ) → lookup b d ≡ some u → IsNode p u)
      → IsNode p v
      → lookup a (insert k v d) ≡ some w
      → IsNode p w
  map_lookup p a k v w d held n e = elim (ℕ_discrete a k) [
    | yes same ↦ subst (λ u. IsNode p u) (inserted a k v w d same e) n
    | no ne ↦ held a w (kept a k v w d ne e)
  ]

  map_erase :
      (p : Pgm) (a k w : ℕ) (d : Dict ℕ)
      → IsDict d
      → ((b u : ℕ) → lookup b d ≡ some u → IsNode p u)
      → lookup a (erase k d) ≡ some w
      → IsNode p w
  map_erase p a k w d dict held e = held a w (erased a k w d dict e)

  IsHeld-at : (s : Core) (a : ℕ) (o : Option ℕ) → IsSound s → lookup a s.vertex_map ≡ o → IsHeld s o
  IsHeld-at s a none h e = tt
  IsHeld-at s a (some v) h e = h.mem a v e

  pub vertex_at-Post :
      (addr : ℕ) (s : Core) → IsSound s → Post (λ v t. Next s t × IsHeld t v) (vertex_at addr s)
  unfolding vertex_at
  vertex_at-Post addr s h = done (Next-refl h, IsHeld-at s addr (lookup addr s.vertex_map) h refl)

  pub overwrite_at-Post :
      (entry : Entry) (time addr : ℕ) (new : Option ℕ) (s : Core)
      → IsSound s
      → Post (λ _ t. Next s t) (overwrite_at entry time addr new s)
  unfolding overwrite_at add_mem_del add_event
  overwrite_at-Post entry time addr new s h = Held-bind (vertex_at-Post addr s h) λ old t n held.
      Post-cases old _ _ t (λ _. done (Next-refl n.sound))
        λ v _.
          Post-if (opt_eq (some v) new) _ _ t (λ _. done (Next-refl n.sound))
            λ _. Held-bind (prov_data-Post v t n.sound) λ d t1 n1 e.
              let n2 =
                set_data-Next t1 v (prov (add_mem_del d time addr entry.is_kernel)) (rw e refl)
                  n1.sound in
              after n2 (
                Held-bind (prov_data-Post v _ n2.sound) λ d' t3 n3 e'.
                  Post-if (mem_opt v t3.reg_nodes || has_active_memory d') _ _ t3
                    (λ _. done (Next-refl n3.sound))
                    (λ _. put_cap-Post v d' _ t3 n3.sound e' λ c. refl))

  pub record_dereference-Post :
      (inst : Instruction) (r : ℤ) (s : Core)
      → IsSound s
      → Post (λ _ t. Next s t) (record_dereference inst r s)
  unfolding record_dereference add_deref_load add_deref_store add_deref add_event
  record_dereference-Post inst r s h =
      let entry = inst.entry in
      Held-bind (get_reg-Post r s h) λ node t n held.
        Post-cases node _ _ t (λ _. failed)
          λ v _. Held-bind (prov_data-Post v t n.sound) λ d t1 n1 e.
            Post-if entry.is_load _ _ t1 (λ _. put_data-Post v _ t1 n1.sound (rw e refl))
              (λ _.
                Post-if entry.is_store _ _ t1 (λ _. put_data-Post v _ t1 n1.sound (rw e refl))
                  (λ _. done (Next-refl n1.sound)))

  pub mem_store-Post :
      (addr v : ℕ) (s : Core)
      → IsSound s
      → IsNode s.pgm v
      → Post (λ _ t. Next s t) (mem_store addr v s)
  unfolding mem_store
  mem_store-Post addr v s h n = done (record {
    sound = record {
      graph = h.graph;
      regs = h.regs;
      mem = λ a w e. map_lookup s.pgm a addr v w s.vertex_map h.mem n e;
      keys = insert-IsDict addr v s.vertex_map h.keys;
    };
    grows = Grows-refl s.pgm;
  })

  plain_load-Post :
      (addr : ℕ) (s : Core) → IsSound s → Post (λ v t. Next s t × IsHeld t v) (mem_load addr none s)
  unfolding mem_load
  plain_load-Post addr s h = done (Next-refl h, IsHeld-at s addr (lookup addr s.vertex_map) h refl)

  vertex_load-Post :
      (addr v : ℕ) (s : Core)
      → IsSound s
      → IsNode s.pgm v
      → Post (λ _ t. Next s t) (mem_load addr (some v) s)
  unfolding mem_load
  vertex_load-Post addr v s h n = done (record {
    sound = record {
      graph = h.graph;
      regs = h.regs;
      mem = λ a w e. map_lookup s.pgm a addr v w s.vertex_map h.mem n e;
      keys = insert-IsDict addr v s.vertex_map h.keys;
    };
    grows = Grows-refl s.pgm;
  })

  clear-Post : (addr : ℕ) (s : Core) → IsSound s → Post (λ _ t. Next s t) (clear addr s)
  unfolding clear
  clear-Post addr s h =
      Post-if (is_some (lookup addr s.vertex_map)) _ _ s
        (λ _. done (record {
          sound = record {
            graph = h.graph;
            regs = h.regs;
            mem = λ a w e. map_erase s.pgm a addr w s.vertex_map h.keys h.mem e;
            keys = erase-IsDict addr s.vertex_map h.keys;
          };
          grows = Grows-refl s.pgm;
        }))
        (λ _. failed)

  fitting : (s : Core) (v : Option ℕ) (b : Bool) → IsHeld s v → IsHeld s (if b then v else none)
  fitting s v true h = h
  fitting s v false h = tt

  loaded_vertex-Post :
      (inst : Instruction) (v : Value) (found : Option ℕ) (s : Core)
      → IsSound s
      → IsHeld s found
      → Post (λ u t. Next s t × IsNode t.pgm u) (loaded_vertex inst v found s)
  unfolding loaded_vertex
  loaded_vertex-Post inst v found s h held =
      Post-bind
        (Post-cases {Q = λ _ t. Next s t} found _ _ s (λ _. done (Next-refl h))
          λ u _. result-Post (is_cap_compatible (s.pgm.data_of u) v) s h)
        λ fits t n.
          let held' = fitting t found fits (Next-IsHeld found n held) in
          Post-cases (if fits then found else none) _ _ t
            (λ _.
              Post-bind (make_root_node-Post inst.entry v inst.entry.cycles t n.sound)
                λ u t1 (n1, k1).
                  Post-bind (vertex_load-Post inst.entry.memory_address u t1 n1.sound k1)
                    λ _ t2 n2. done (Next-trans n (Next-trans n1 n2), Grows-IsNode n2.grows k1))
            (λ u e. done (n, held_some t (if fits then found else none) u held' e))

  pub clc_core-Post :
      (inst : Instruction) (s : Core) → IsSound s → Post (λ _ t. Next s t) (clc_core inst s)
  unfolding clc_core add_mem_load add_event
  clc_core-Post inst s h =
      let addr = inst.entry.memory_address in
      Post-result (operand 0 inst) s _ λ cd _.
        Held-bind (plain_load-Post addr s h) λ found t n held.
          Post-result (operand_value 0 inst) t _ λ v _. Post-result (as_register v) t _ λ r _.
            Post-if (not r.valid) _ _ t
              (λ _.
                Next-bind (set_reg-Post (cap_index cd) none inst.entry.cycles t n.sound tt)
                  λ _ t1 k1.
                    Post-when (is_some found) _ t1 (λ _. clear-Post addr t1 k1) (Next-refl k1))
              (λ _. Held-bind (loaded_vertex-Post inst v found t n.sound held) λ u t1 n1 nu.
                Held-bind (prov_data-Post u t1 n1.sound) λ d t2 n2 e.
                  let nu2 = Grows-IsNode n2.grows nu in
                  Held-bind
                    (Post-mono (assert_matches-Post d v t2 n2.sound)
                      λ _ t3 n3. (n3, n3.grows.kept u nu2.below))
                    λ _ t3 n3 same.
                      let d' = add_mem_load d inst.entry.cycles addr inst.entry.is_kernel in
                      let n4 =
                        set_data-Next t3 u (prov d')
                          (sym (same ∙ shape_of (t2.pgm.data_of u) d d' e refl)) n3.sound in
                      after n4 (
                        set_reg-Post (cap_index cd) (some u) inst.entry.cycles _ n4.sound
                          (Grows-IsNode (Next-trans n3 n4).grows nu2)))

  pub stored_vertex-Post :
      (inst : Instruction) (cd : ℤ) (v : Value) (s : Core)
      → IsSound s
      → Post (λ u t. Next s t × IsHeld t u) (stored_vertex inst cd v s)
  unfolding stored_vertex
  stored_vertex-Post inst cd v s h =
      Post-bind (has_reg-Post cd v inst.entry.cycles true s h) λ known t n.
        Post-if known _ _ t
          (λ _. Post-mono (get_reg-Post cd t n.sound) λ u t1 (n1, k). (Next-trans n n1, k))
          (λ _.
            Post-bind (make_root_node-Post inst.entry v inst.entry.cycles t n.sound)
              λ u t1 (n1, k1).
                Post-bind (set_reg-Post cd (some u) inst.entry.cycles t1 n1.sound k1)
                  λ _ t2 n2. done (Next-trans n (Next-trans n1 n2), Grows-IsNode n2.grows k1))

  pub record_store-Post :
      (inst : Instruction) (u : ℕ) (s : Core)
      → IsSound s
      → IsNode s.pgm u
      → Post (λ _ t. Next s t) (record_store inst u s)
  unfolding record_store add_mem_store add_event
  record_store-Post inst u s h nu =
      Next-bind (mem_store-Post inst.entry.memory_address u s h nu) λ _ t k.
        Held-bind (prov_data-Post u t k) λ d t1 n1 e. put_data-Post u _ t1 n1.sound (rw e refl)
