-- ===== src/Model/EventType.antt =====
-- The flags of EventType in provenance/model.py.
use cheriplot.Base.{ℕ, bit_or}

abbrev pub load : ℕ
load = 1

abbrev pub store : ℕ
store = 2

abbrev pub deref_load : ℕ
deref_load = 4

abbrev pub deref_store : ℕ
deref_store = 8

abbrev pub deref_call : ℕ
deref_call = 16

abbrev pub deref_is_cap : ℕ
deref_is_cap = 32

abbrev pub delete : ℕ
delete = 64

abbrev pub usr : ℕ
usr = 128

-- `EventType.memop_mask()`
abbrev pub memop_mask : ℕ
memop_mask = bit_or (bit_or load store) delete

-- `EventType.deref_mask()`
abbrev pub deref_mask : ℕ
deref_mask = bit_or (bit_or (bit_or deref_load deref_store) deref_call) deref_is_cap
