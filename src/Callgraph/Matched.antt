-- ===== src/Callgraph/Matched.antt =====
-- callgraph/call_graph.py: a return and the call that it matches.
use cheriplot.Graph.{GraphTool}
use cheriplot.Trace.{Instruction, CapRegister, Value}
use cheriplot.Parser.Defer.{operand_value}
use cheriplot.Callgraph.Backtrace.{
  CallGraph, add_call, handle_call, scan_cjalr, scan_cjr, check_depth,
}
use cheriplot.Base.{
  ◌≡◌, false, if◌then◌else◌, ◌+◌, ◌==◌, Bool-cases, inl, inr, true, ℕ, ap, refl, ◌∷◌, ◌∙◌,
}
use cheriplot.Base.Errors.{ok, ◌>>=◌, err, runtime_error}

module _ ⦃gt : GraphTool⦄ where
  abbrev pushed : Instruction → CapRegister → CallGraph → CallGraph
  pushed i r s = record s {
    return_stack = (r.base + r.offset, i.entry.cycles, true) ∷ s.return_stack;
  }

  scan_cjr-pushed :
      (s : CallGraph) (i : Instruction) (r : CapRegister)
      → i.entry.is_kernel ≡ false
      → operand_value 0 i ≡ ok (Value.cap r)
      → scan_cjr i s ≡ ok (check_depth (pushed i r s), pushed i r s)
  unfolding scan_cjr
  scan_cjr-pushed s i r h ri = rw (ri, h) refl

  handle_call-popped :
      (s : CallGraph) (c link : CapRegister) (addr cycles time : ℕ)
      → handle_call
          (Value.cap c)
          (Value.cap link)
          time
          (record s { return_stack = (addr, cycles, true) ∷ s.return_stack })
        ≡ (if link.base + link.offset == addr
            then ok (tt, add_call (c.base + c.offset) time s)
            else err runtime_error)
  unfolding handle_call
  handle_call-popped s c link addr cycles time =
      elim (Bool-cases (link.base + link.offset == addr)) [
        | inl e ↦ rw (handle_call, e) refl
        | inr e ↦ rw (handle_call, e) refl
      ]

  scan_cjalr-popped :
      (s : CallGraph) (j : Instruction) (c link : CapRegister) (addr cycles : ℕ)
      → j.entry.is_kernel ≡ false
      → operand_value 1 j ≡ ok (Value.cap c)
      → operand_value 0 j ≡ ok (Value.cap link)
      → scan_cjalr j (record s { return_stack = (addr, cycles, true) ∷ s.return_stack }) ≡ (
          if link.base + link.offset == addr
          then (let t = add_call (c.base + c.offset) j.entry.cycles s in ok (check_depth t, t))
          else err runtime_error)
  unfolding scan_cjalr
  scan_cjalr-popped s j c link addr cycles h cj lj =
      let popped = handle_call-popped s c link addr cycles j.entry.cycles in
      elim (Bool-cases (link.base + link.offset == addr)) [
        | inl e ↦
            rw (cj, lj, h)
              (ap (λ x. elim x [ ok (a, t) ↦ ok (check_depth t, t) | err y ↦ err y ]) popped
                ∙ rw e refl)
        | inr e ↦
            rw (cj, lj, h)
              (ap (λ x. elim x [ ok (a, t) ↦ ok (check_depth t, t) | err y ↦ err y ]) popped
                ∙ rw e refl)
      ]

  -- Where neither is kernel code, a return to a capability, and the call that the scan meets next,
  -- register the call and leave the other returns alone if the call links to the address of the
  -- return, and raise a RuntimeError if it does not.
  pub scan_cjr-scan_cjalr :
      (s : CallGraph) (i j : Instruction) (r c link : CapRegister)
      → i.entry.is_kernel ≡ false
      → j.entry.is_kernel ≡ false
      → operand_value 0 i ≡ ok (Value.cap r)
      → operand_value 1 j ≡ ok (Value.cap c)
      → operand_value 0 j ≡ ok (Value.cap link)
      → (scan_cjr i >>= λ _. scan_cjalr j) s ≡ (
          if link.base + link.offset == r.base + r.offset
          then (let t = add_call (c.base + c.offset) j.entry.cycles s in ok (check_depth t, t))
          else err runtime_error)
  scan_cjr-scan_cjalr s i j r c link hi hj ri cj lj =
      ap (λ x. elim x [ ok (b, t) ↦ scan_cjalr j t | err e ↦ err e ]) (scan_cjr-pushed s i r hi ri)
      ∙ scan_cjalr-popped s j c link (r.base + r.offset) i.entry.cycles hj cj lj
