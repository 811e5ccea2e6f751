-- ===== src/Model/ActiveMemory.antt =====
-- The active memory of a vertex against its event table.
use cheriplot.Base.{
  ℕ, ◌+◌, ◌-◌, ◌≡◌, refl, Bool, Option, none, some, List, [], ◌∷◌, ◌++◌, ◌==◌, arith, if◌then◌else◌,
  lookup, length, length-append, IsDict, lookup-insert, lookup-erase, insert-IsDict, erase-IsDict,
  ap, false, ◌∙◌, sym,
}
use cheriplot.Model.Vertex.{Event, ProvenanceVertexData, fresh_data, has_flag, with_mode, add_event}
use cheriplot.Model.EventType

-- One call of `add_event`.
pub record Call : Type 0 where
  pub time : ℕ
  pub addr : ℕ
  pub is_kernel : Bool
  pub type : ℕ

abbrev pub add_events : ProvenanceVertexData → List Call → ProvenanceVertexData
add_events d [] = d
add_events d (c ∷ cs) = add_events (add_event d c.time c.addr c.is_kernel c.type) cs

-- What a row at index `i` does to the answer for an address.
row_effect : Event → ℕ → ℕ → Option ℕ → Option ℕ
row_effect e i a acc =
    if a == e.addr
    then (if has_flag e.type EventType.store
        then some i
        else (if has_flag e.type EventType.delete then none else acc))
    else acc

-- What the table says of an address, read from row `i` on: the index of the last row that stores
-- or deletes there, if that row is a store. `acc` is the answer of the rows above.
pub live_row : List Event → ℕ → ℕ → Option ℕ → Option ℕ
live_row [] i a acc = acc
live_row (e ∷ es) i a acc = live_row es (i + 1) a (row_effect e i a acc)

live_row-snoc :
    (es : List Event) (e : Event) (i a : ℕ) (acc : Option ℕ)
    → live_row (es ++ e ∷ []) i a acc ≡ row_effect e (i + length es) a (live_row es i a acc)
unfolding live_row
live_row-snoc [] e i a acc = ground (arith)
live_row-snoc (x ∷ es) e i a acc =
    ground (arith, live_row-snoc es e (i + 1) a (row_effect x i a acc))

pub live_row-append :
    (es fs : List Event) (i a : ℕ) (acc : Option ℕ)
    → live_row (es ++ fs) i a acc ≡ live_row fs (i + length es) a (live_row es i a acc)
unfolding live_row
live_row-append [] fs i a acc = ap (λ j. live_row fs j a acc) (omega arith)
live_row-append (e ∷ es) fs i a acc =
    live_row-append es fs (i + 1) a (row_effect e i a acc)
    ∙ ap (λ j. live_row fs j a (live_row es (i + 1) a (row_effect e i a acc))) (omega arith)

-- No row of a table is a deletion.
abbrev pub NoDelete : List Event → Type 0
NoDelete [] = Unit
NoDelete (e ∷ es) = (has_flag e.type EventType.delete ≡ false) × NoDelete es

-- `acc`, unless there is a row, whose index then counts from `i` on.
abbrev pub or_moved : ℕ → Option ℕ → Option ℕ → Option ℕ
or_moved i acc none = acc
or_moved i acc (some j) = some (j + i)

or_moved_step :
    (e : Event) (i j a : ℕ) (acc x : Option ℕ)
    → has_flag e.type EventType.delete ≡ false
    → or_moved i (row_effect e (j + i) a acc) x
      ≡ or_moved i acc (or_moved 0 (row_effect e j a none) x)
unfolding row_effect
or_moved_step e i j a acc none h = ground arith
or_moved_step e i j a acc (some k) h = ground arith

-- Without deletions the rows above matter only where the table is silent.
pub live_row-NoDelete :
    (es : List Event) (i j a : ℕ) (acc : Option ℕ)
    → NoDelete es
    → live_row es (j + i) a acc ≡ or_moved i acc (live_row es j a none)
unfolding live_row
live_row-NoDelete [] i j a acc h = refl
live_row-NoDelete (e ∷ es) i j a acc h =
    ap (λ k. live_row es k a (row_effect e (j + i) a acc)) (omega arith)
    ∙ (live_row-NoDelete es i (j + 1) a (row_effect e (j + i) a acc) h.1
        ∙ (or_moved_step e i j a acc (live_row es (j + 1) a none) h.0
            ∙ ap (or_moved i acc) (
                sym (live_row-NoDelete es 0 (j + 1) a (row_effect e j a none) h.1)
                ∙ ap (λ k. live_row es k a (row_effect e j a none)) (omega arith))))

-- The dict agrees with the table.
pub record IsTracked (d : ProvenanceVertexData) : Type 0 where
  pub is_dict : IsDict d.active_memory
  pub agrees : (a : ℕ) → lookup a d.active_memory ≡ live_row d.events 0 a none

add_event-lookup :
    (d : ProvenanceVertexData) (c : Call) (a : ℕ)
    → IsDict d.active_memory
    → lookup a d.active_memory ≡ live_row d.events 0 a none
    → let d' = add_event d c.time c.addr c.is_kernel c.type in
      lookup a d'.active_memory ≡ live_row d'.events 0 a none
unfolding add_event row_effect
add_event-lookup d c a dict h =
    let e : Event = record { time = c.time; addr = c.addr; type = with_mode c.is_kernel c.type } in
    ground (
      arith,
      live_row-snoc d.events e 0 a none,
      length-append d.events (e ∷ []),
      lookup-insert a c.addr (length (d.events ++ e ∷ []) - 1) d.active_memory,
      lookup-erase a c.addr d.active_memory dict,
    )

add_event-IsDict :
    (d : ProvenanceVertexData) (c : Call)
    → IsDict d.active_memory
    → IsDict (add_event d c.time c.addr c.is_kernel c.type).active_memory
unfolding add_event
add_event-IsDict d c h = ground (
  arith,
  insert-IsDict c.addr
      (length (
          d.events
          ++ record { time = c.time; addr = c.addr; type = with_mode c.is_kernel c.type } ∷ [])
        - 1)
      d.active_memory h,
  erase-IsDict c.addr d.active_memory h,
)

pub add_event-IsTracked :
    (d : ProvenanceVertexData) (c : Call)
    → IsTracked d
    → IsTracked (add_event d c.time c.addr c.is_kernel c.type)
add_event-IsTracked d c t = record {
  is_dict = add_event-IsDict d c t.is_dict;
  agrees = λ a. add_event-lookup d c a t.is_dict (t.agrees a);
}

add_events-IsTracked :
    (cs : List Call) (d : ProvenanceVertexData) → IsTracked d → IsTracked (add_events d cs)
add_events-IsTracked [] d t = t
add_events-IsTracked (c ∷ cs) d t =
    add_events-IsTracked cs (add_event d c.time c.addr c.is_kernel c.type)
      (add_event-IsTracked d c t)

pub fresh_data-IsTracked : IsTracked fresh_data
unfolding live_row
fresh_data-IsTracked = record { is_dict = tt; agrees = λ a. refl }

-- After any calls of `add_event` on a fresh vertex, the active memory of an address is the index of
-- the last row of the event table that stores or deletes there, if that row is a store, and the
-- address is not in the active memory otherwise.
pub add_events-active_memory :
    (cs : List Call) (a : ℕ)
    → let d = add_events fresh_data cs in lookup a d.active_memory ≡ live_row d.events 0 a none
add_events-active_memory cs a = (add_events-IsTracked cs fresh_data fresh_data-IsTracked).agrees a
