-- ===== src/Parser/Stored.antt =====
-- What scan_csc of the class PointerProvenanceSubparser (provenance/parser/sub_mips.py) leaves in the
-- registers and in the memory map.
use cheriplot.Base.{
  some, true, false, List, Option, ℕ, Bool, get_elem?, ◌≡◌, length, refl, subst, ◌∙◌, ◌<◌, ap,
  arith, sym, get_elem?-set_self, length-set, lookup, lookup-insert, opt_eq, mem_opt, if◌then◌else◌,
  insert, ◌||◌,
}
use cheriplot.Base.Post.{
  Post, done, failed, Post-bind, Post-mono, Post-result, Post-if, Post-cases, Post-choose,
  Post-some,
}
use cheriplot.Base.Int.{ℤ}
use cheriplot.Base.Errors.{Result, ok, err, index_error}
use cheriplot.Graph.{GraphTool}
use cheriplot.Trace.{
  Instruction, Entry, Value, cap, CapRegister, Operand, operand, cap_index, nothing, num, vertex,
}
use cheriplot.Model.Vertex.{has_active_memory, add_mem_del}
use cheriplot.Parser.State.{Core, py_index, index_of, as_cap, as_prov}
use cheriplot.Parser.Worker.{Worker}
use cheriplot.Parser.RegisterSet.{get_reg, set_reg, has_reg}
use cheriplot.Parser.VertexMap.{mem_store, vertex_at}
use cheriplot.Parser.Nodes.{make_root_node}
use cheriplot.Parser.Defer.{operand_value, as_register}
use cheriplot.Parser.Memory.{csc_body, stored_vertex, record_store, overwrite_at, mem_overwrite}
use cheriplot.Parser.Registers.{set_reg-IsWritten, index_of-some, IsWritten}
use cheriplot.Model.Manager.{set_data, prov}

-- A register, by its index in Python, has a vertex, or none.
abbrev pub Holds : ℤ → Option ℕ → List (Option ℕ) → Type 0
Holds i v regs = (n : ℕ) × (py_index i (length regs) ≡ some n) × (get_elem? regs n ≡ some v)

py_index_bound : (i : ℤ) (len n : ℕ) → py_index i len ≡ some n → n < len
unfolding py_index
py_index_bound i len n e = ground arith

pub register-same : (v : Value) (r c : CapRegister) → v ≡ cap c → as_register v ≡ ok r → r ≡ c
register-same (cap x) r c e h = cc
register-same nothing r c e h = cc
register-same (num n) r c e h = cc
register-same (vertex u) r c e h = cc

pub same_ok : {A : Type 0} {x y : A} → ok x ≡ ok y → x ≡ y
same_ok {x} e = ap (λ r. elim r [ ok a ↦ a | err _ ↦ x ]) e

not_both : (b : Bool) → b ≡ true → b ≡ false → ⊥
not_both b h k = cc

-- Any call has the postcondition that says nothing.
pub any_Post : {S A : Type 0} (r : Result (A × S)) → Post (λ _ _. Unit {0}) r
any_Post (ok (a, t)) = done tt
any_Post (err e) = failed

module _ ⦃gt : GraphTool⦄ where
  written-Holds :
      (i : ℤ) (v : Option ℕ) (old new : List (Option ℕ)) → IsWritten i v old new → Holds i v new
  written-Holds i v old new (n, at, same) = (
    n,
    ap (py_index i) (ap length same ∙ length-set old n v) ∙ at,
    ap (λ xs. get_elem? xs n) same
        ∙ get_elem?-set_self old n v (py_index_bound i (length old) n at),
  )

  get_reg-Holds : (i : ℤ) (s : Core) → Post (λ v t. Holds i v t.reg_nodes) (get_reg i s)
  unfolding get_reg
  get_reg-Holds i s = Post-result (index_of i s.reg_nodes) s _ λ n e.
      Post-some (get_elem? s.reg_nodes n) index_error s
        λ v at. (n, index_of-some i s.reg_nodes n e, at)

  pub set_reg-Holds :
      (i : ℤ) (v : Option ℕ) (time : ℕ) (s : Core)
      → Post (λ _ t. Holds i v t.reg_nodes) (set_reg i v time s)
  set_reg-Holds i v time s =
      Post-mono (set_reg-IsWritten i v time s) λ _ t h. written-Holds i v s.reg_nodes t.reg_nodes h

  stored_vertex-Holds :
      (inst : Instruction) (i : ℤ) (v : Value) (s : Core)
      → Post (λ node t. Holds i node t.reg_nodes) (stored_vertex inst i v s)
  unfolding stored_vertex
  stored_vertex-Holds inst i v s =
      Post-bind (any_Post (has_reg i v inst.entry.cycles true s)) λ known t _.
        Post-if known _ _ t (λ _. get_reg-Holds i t)
          λ _.
            Post-bind (any_Post (make_root_node inst.entry v inst.entry.cycles t))
              λ u t1 _. Post-bind (set_reg-Holds i (some u) inst.entry.cycles t1) λ _ t2 h. done h

  overwrite_at-KeepsRegs :
      (entry : Entry) (time addr : ℕ) (new : Option ℕ) (s : Core)
      → Post (λ _ t. t.reg_nodes ≡ s.reg_nodes) (overwrite_at entry time addr new s)
  unfolding overwrite_at vertex_at add_mem_del
  overwrite_at-KeepsRegs entry time addr new s =
      Post-cases (lookup addr s.vertex_map) _ _ s (λ _. done refl)
        λ v _.
          Post-if (opt_eq (some v) new) _ _ s (λ _. done refl)
            λ _. Post-result (as_prov (s.pgm.data_of v)) s _ λ d _.
              let s1 = record s {
                pgm = set_data v (prov (add_mem_del d time addr entry.is_kernel)) s.pgm;
              } in
              Post-result (as_prov (s1.pgm.data_of v)) s1 _ λ d' _.
                Post-if (mem_opt v s1.reg_nodes || has_active_memory d') _ _ s1 (λ _. done refl)
                  λ _. Post-result (as_cap d'.cap) s1 _ λ c _. done refl

  -- The rule for `lift`.
  pub lift_Post :
      {A : Type 0} {R : A → Core → Type 0} {r : Result (A × Core)} (w : Worker)
      → Post R r
      → Post
          (λ a t. R a t.core × (t.paused ≡ w.paused))
          (elim r [ ok (a, c) ↦ ok (a, record w { core = c }) | err e ↦ err e ])
  lift_Post w (done h) = done (h, refl)
  lift_Post w failed = failed

  -- The step leaves the registers of a worker alone.
  abbrev KeepsAll : Worker → Unit {0} → Worker → Type 0
  KeepsAll w a t = (t.core.reg_nodes ≡ w.core.reg_nodes) × (t.paused ≡ w.paused)

  unless_paused-cases :
      (b : Bool) (w : Worker) (r : Result (Unit {0} × Worker))
      → Post (KeepsAll w) r
      → Post (KeepsAll w) (if b then ok (tt, w) else r)
  unless_paused-cases true w r h = done (refl, refl)
  unless_paused-cases false w r h = h

  mem_overwrite-KeepsAll :
      (entry : Entry) (time addr : ℕ) (new : Option ℕ) (w : Worker)
      → Post (KeepsAll w) (mem_overwrite entry time addr new w)
  unfolding mem_overwrite
  mem_overwrite-KeepsAll entry time addr new w =
      unless_paused-cases w.paused w _
        (lift_Post w (overwrite_at-KeepsRegs entry time _ new w.core))

  -- A register and the memory at an address have the same vertex.
  abbrev pub IsStored : ℤ → ℕ → ℕ → Worker → Type 0
  IsStored i addr u w = Holds i (some u) w.core.reg_nodes × (lookup addr w.core.vertex_map ≡ some u)

  record_store-IsStored :
      (inst : Instruction) (i : ℤ) (u : ℕ) (s : Core)
      → Holds i (some u) s.reg_nodes
      → Post
          (λ _ t.
            Holds i (some u) t.reg_nodes × (lookup inst.entry.memory_address t.vertex_map ≡ some u))
          (record_store inst u s)
  unfolding record_store mem_store
  record_store-IsStored inst i u s h =
      let s1 = record s { vertex_map = insert inst.entry.memory_address u s.vertex_map } in
      Post-result (as_prov (s1.pgm.data_of u)) s1 _ λ d _. done (
        h,
        lookup-insert inst.entry.memory_address inst.entry.memory_address u s.vertex_map
            ∙ ground arith,
      )

  pub csc_body-IsStored :
      (inst : Instruction) (dst : Operand) (c : CapRegister) (w : Worker)
      → operand 0 inst ≡ ok dst
      → operand_value 0 inst ≡ ok (cap c)
      → c.valid ≡ true
      → Post
          (λ _ t.
            ((u : ℕ) × IsStored (cap_index dst) inst.entry.memory_address u t)
            × (t.paused ≡ w.paused))
          (csc_body inst w)
  unfolding csc_body
  csc_body-IsStored inst dst c w to from good = Post-result (operand 0 inst) w _ λ d e.
      Post-result (operand_value 0 inst) w _ λ v e1. Post-result (as_register v) w _ λ r e2.
        Post-choose r.valid _ w
          (λ _.
            Post-bind (lift_Post w (stored_vertex-Holds inst (cap_index d) v w.core))
              λ node w1 (h, p1).
                Post-bind
                  (mem_overwrite-KeepsAll inst.entry inst.entry.cycles inst.entry.memory_address
                    node w1)
                  λ _ w2 (same, p2).
                    Post-cases node _ _ w2 (λ _. failed)
                      λ u is_u.
                        Post-mono
                          (lift_Post w2 (
                            record_store-IsStored inst (cap_index d) u w2.core (
                              subst (λ x. Holds (cap_index d) x w2.core.reg_nodes) is_u
                                (subst (λ xs. Holds (cap_index d) node xs) (sym same) h))))
                          λ _ w3 (k, p3). (
                            (
                              u,
                              (
                                subst (λ x. Holds (cap_index x) (some u) w3.core.reg_nodes)
                                    (same_ok (sym e ∙ to)) k.0,
                                k.1,
                              ),
                            ),
                            p3 ∙ p2 ∙ p1,
                          ))
          (λ bad.
            let stored = register-same v r c (same_ok (sym e1 ∙ from)) e2 in
            absurd (not_both c.valid good (sym (ap (λ (x : CapRegister). x.valid) stored) ∙ bad)))
