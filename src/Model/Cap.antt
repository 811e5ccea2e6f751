-- ===== src/Model/Cap.antt =====
-- The class CheriCap of provenance/model.py. A field that Python sets to None is an Option;
-- the times start at -1 and are integers.
use cheriplot.Base.{
  ℕ, ◌+◌, Bool, false, ◌&&◌, not, Option, none, some, bit_and, ◌==◌, if◌then◌else◌, opt_eq, bool_eq,
}
use cheriplot.Base.Int.{ℤ, pos, negsuc, int_eq}
use cheriplot.Base.Errors.{Result, ok, err, attribute_error, type_error}
use cheriplot.Trace.{CapRegister, Value, nothing, num, cap, vertex}

-- CheriCapPerm
abbrev pub perm_exec : ℕ
perm_exec = 2

pub record CheriCap : Type 0 where
  pub base : Option ℕ
  pub length : Option ℕ
  pub offset : Option ℕ
  pub permissions : Option ℕ
  pub objtype : Option ℕ
  pub valid : Bool
  pub sealed : Bool
  pub t_alloc : ℤ
  pub t_free : ℤ

abbrev pub max_otype : ℕ
max_otype = 0x00ffffff

-- `CheriCap()`
abbrev pub empty_cap : CheriCap
empty_cap = record {
  base = none;
  length = none;
  offset = none;
  permissions = none;
  objtype = none;
  valid = false;
  sealed = false;
  t_alloc = negsuc 0;
  t_free = negsuc 0;
}

-- `CheriCap(r)` for a register of the trace.
unfoldable pub of_register : CapRegister → CheriCap
of_register r = record {
  base = some r.base;
  length = some r.length;
  offset = some r.offset;
  permissions = some r.permissions;
  objtype = some (bit_and r.type max_otype);
  valid = r.valid;
  sealed = r.unsealed;
  t_alloc = negsuc 0;
  t_free = negsuc 0;
}

-- `CheriCap(x)` for any value: None and 0 are false, and other values have no `base`.
unfoldable pub cheri_cap : Value → Result CheriCap
unfolding of_register
cheri_cap nothing = ok empty_cap
cheri_cap (num n) = if int_eq n (pos 0) then ok empty_cap else err attribute_error
cheri_cap (cap r) = ok (of_register r)
cheri_cap (vertex v) = err attribute_error

-- The property `bound`.
unfoldable pub bound : CheriCap → Option ℕ
bound c = elim c.base [
  | none ↦ none
  | some b ↦ elim c.length [ none ↦ none | some l ↦ some (b + l) ]
]

-- `has_perm`: None has no bits to test.
unfoldable pub has_perm : CheriCap → ℕ → Result Bool
has_perm c perm = elim c.permissions [
  | none ↦ err type_error
  | some p ↦ ok (not (bit_and p perm == 0))
]

-- `__eq__`
unfoldable pub cap_eq : CheriCap → CheriCap → Bool
cap_eq a b =
    opt_eq a.base b.base
    && (opt_eq a.length b.length
        && (opt_eq a.offset b.offset
            && (opt_eq a.permissions b.permissions
                && (opt_eq a.objtype b.objtype
                    && (bool_eq a.valid b.valid
                        && (bool_eq a.sealed b.sealed
                            && (int_eq a.t_alloc b.t_alloc && int_eq a.t_free b.t_free)))))))
