-- ===== src/Model/Vertex.antt =====
-- EventType, CheriNodeOrigin, ProvenanceVertexData and CallVertexData of provenance/model.py.
-- The columns of the event table, which grow together, are one list of rows.
use cheriplot.Base.{
  String, ℕ, ◌-◌, Bool, true, false, not, Option, none, List, [], ◌∷◌, ◌++◌, bit_and, bit_or, ◌==◌,
  ltb, if◌then◌else◌, Dict, insert, erase, length,
}
use cheriplot.Base.Int.{ℤ}
use cheriplot.Model.Cap.{CheriCap}
use cheriplot.Model.EventType

pub data CheriNodeOrigin : Type 0 where
  unknown partial root initial_root setbounds fromptr andperm ptr_setbounds : CheriNodeOrigin

abbrev pub is_partial : CheriNodeOrigin → Bool
is_partial partial = true
is_partial _ = false

abbrev pub is_root : CheriNodeOrigin → Bool
is_root root = true
is_root _ = false

pub record Event : Type 0 where
  pub time : ℕ
  pub addr : ℕ
  pub type : ℕ

pub record ProvenanceVertexData : Type 0 where
  pub events : List Event
  pub cap : Option CheriCap
  pub origin : CheriNodeOrigin
  pub pc : Option ℕ
  pub is_kernel : Bool
  pub active_memory : Dict ℕ

-- `ProvenanceVertexData()`
abbrev pub fresh_data : ProvenanceVertexData
fresh_data = record {
  events = [];
  cap = none;
  origin = unknown;
  pc = none;
  is_kernel = false;
  active_memory = [];
}

-- `type_ & flag`, as a test.
abbrev pub has_flag : ℕ → ℕ → Bool
has_flag type flag = not (bit_and type flag == 0)

-- `if not is_kernel: type_ |= USR`
abbrev pub with_mode : Bool → ℕ → ℕ
with_mode is_kernel type = if is_kernel then type else bit_or type EventType.usr

unfoldable pub add_event : ProvenanceVertexData → (time addr : ℕ) → Bool → ℕ → ProvenanceVertexData
add_event d time addr is_kernel type_ =
    let type = with_mode is_kernel type_ in
    let events = d.events ++ record { time = time; addr = addr; type = type } ∷ [] in
    record d {
      events = events;
      active_memory =
          if has_flag type EventType.store
          then insert addr (length events - 1) d.active_memory
          else if has_flag type EventType.delete
          then erase addr d.active_memory
          else d.active_memory;
    }

-- The third argument, named `pc` in the source, is handed on as `is_kernel`.
unfoldable pub add_deref :
    ProvenanceVertexData → (time addr : ℕ) → Bool → Bool → ℕ → ProvenanceVertexData
unfolding add_event
add_deref d time addr is_kernel is_cap type =
    add_event d time addr is_kernel (if is_cap then bit_or type EventType.deref_is_cap else type)

unfoldable pub add_mem_load : ProvenanceVertexData → (time addr : ℕ) → Bool → ProvenanceVertexData
unfolding add_event
add_mem_load d time addr is_kernel = add_event d time addr is_kernel EventType.load

unfoldable pub add_mem_store : ProvenanceVertexData → (time addr : ℕ) → Bool → ProvenanceVertexData
unfolding add_event
add_mem_store d time addr is_kernel = add_event d time addr is_kernel EventType.store

unfoldable pub add_mem_del : ProvenanceVertexData → (time addr : ℕ) → Bool → ProvenanceVertexData
unfolding add_event
add_mem_del d time addr is_kernel = add_event d time addr is_kernel EventType.delete

unfoldable pub add_deref_load :
    ProvenanceVertexData → (time addr : ℕ) → Bool → Bool → ProvenanceVertexData
unfolding add_deref
add_deref_load d time addr is_kernel is_cap =
    add_deref d time addr is_kernel is_cap EventType.deref_load

unfoldable pub add_deref_store :
    ProvenanceVertexData → (time addr : ℕ) → Bool → Bool → ProvenanceVertexData
unfolding add_deref
add_deref_store d time addr is_kernel is_cap =
    add_deref d time addr is_kernel is_cap EventType.deref_store

unfoldable pub has_active_memory : ProvenanceVertexData → Bool
has_active_memory d = ltb 0 (length d.active_memory)

pub record CallVertexData : Type 0 where
  pub address : Option ℤ
  pub t_return : Option ℕ
  pub addr_return : Option ℕ
  pub stack_frame_base : Option ℕ
  pub stack_frame_size : ℕ
  pub symbol : Option String
  pub symbol_file : Option String

-- `CallVertexData(address)`
abbrev pub call_data : Option ℤ → CallVertexData
call_data address = record {
  address = address;
  t_return = none;
  addr_return = none;
  stack_frame_base = none;
  stack_frame_size = 0;
  symbol = none;
  symbol_file = none;
}
