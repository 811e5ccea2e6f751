-- ===== src/Visit/Merged.antt =====
-- What MergeCfromptr puts into the merged vertex: its active memory against its event table.
use cheriplot.Base.{
  [], ◌∷◌, none, inl, inr, ℕ, ◌≡◌, refl, Dict, IsDict, lookup, Option-cases, length, ◌++◌, ◌∙◌, ap₂,
  sym, arith, insert, subst, ◌+◌, lookup-insert, insert-IsDict,
}
use cheriplot.Visit.Merge.{merged_memory, merged_data}
use cheriplot.Model.Vertex.{ProvenanceVertexData}
use cheriplot.Model.ActiveMemory.{
  IsTracked, NoDelete, or_moved, live_row, live_row-NoDelete, live_row-append,
}
use cheriplot.Base.Errors.{ok, err}

merged_memory-lookup :
    (delta a : ℕ) (p u : Dict ℕ)
    → IsDict u
    → lookup a (merged_memory delta p u) ≡ or_moved delta (lookup a p) (lookup a u)
unfolding merged_memory
merged_memory-lookup delta a p [] h = refl
merged_memory-lookup delta a p ((k, idx) ∷ u) h = ground (
  arith,
  merged_memory-lookup delta a (insert k (idx + delta) p) u h.1,
  lookup-insert a k (idx + delta) p,
)

merged_memory-IsDict : (delta : ℕ) (p u : Dict ℕ) → IsDict p → IsDict (merged_memory delta p u)
unfolding merged_memory
merged_memory-IsDict delta p [] h = h
merged_memory-IsDict delta p ((k, idx) ∷ u) h =
    merged_memory-IsDict delta (insert k (idx + delta) p) u (insert-IsDict k (idx + delta) p h)

merged_agrees :
    (p u : ProvenanceVertexData)
    → IsTracked p
    → IsTracked u
    → NoDelete u.events
    → (a : ℕ)
    → lookup a (merged_memory (length p.events) p.active_memory u.active_memory)
      ≡ live_row (p.events ++ u.events) 0 a none
merged_agrees p u tp tu kept a =
    merged_memory-lookup (length p.events) a p.active_memory u.active_memory tu.is_dict
    ∙ (ap₂ (or_moved (length p.events)) (tp.agrees a) (tu.agrees a)
        ∙ (sym (live_row-NoDelete u.events (length p.events) 0 a (live_row p.events 0 a none) kept)
            ∙ sym (live_row-append p.events u.events 0 a none)))

-- If the merge of a cfromptr vertex and a csetbounds vertex does not raise, the active memory of
-- both agrees with their event tables, and nothing stored from the second was deleted, then the
-- active memory of the merged vertex agrees with its event table.
pub merged_data-IsTracked :
    (p u d : ProvenanceVertexData)
    → merged_data p u ≡ ok d
    → IsTracked p
    → IsTracked u
    → NoDelete u.events
    → IsTracked d
unfolding merged_data
merged_data-IsTracked p u d ran tp tu kept = elim (Option-cases u.cap) [
  | inl e ↦ cc (rw e at ran)
  | inr (uc, e) ↦ elim (Option-cases p.cap) [
    | inl e' ↦ cc (rw (e, e') at ran)
    | inr (pc, e') ↦
        subst (λ r. elim r [ ok x ↦ IsTracked x | err _ ↦ Unit {0} ]) (rw (e, e') at ran)
          (record {
            is_dict =
                merged_memory-IsDict (length p.events) p.active_memory u.active_memory tp.is_dict;
            agrees = merged_agrees p u tp tu kept;
          })
  ]
]
