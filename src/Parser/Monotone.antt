-- ===== src/Parser/Monotone.antt =====
-- What the monotonicity check of `make_node` (provenance/parser/sub_mips.py) lets through.
use cheriplot.Base.{
  ℕ, Option, none, some, ◌≤◌, ◌+◌, ◌-◌, bit_and, ◌≡◌, true, false, arith, Bool, sym, ◌∙◌,
  if◌then◌else◌, ◌&&◌, refl,
}
use cheriplot.Model.Cap.{CheriCap, bound}
use cheriplot.Parser.Nodes.{is_violation, opt_lt, has_extra, or_else}
use cheriplot.Base.Errors.{ok, Result}

-- The fields of a child stay within those of its parent: base, end and permission bits.
abbrev pub Contained : (pb pl pp cb cl cp : Option ℕ) → Type 0
Contained (some pb) (some pl) (some pp) (some cb) (some cl) (some cp) =
    (pb ≤ cb) × (cb + cl ≤ pb + pl) × (cp - bit_and cp pp ≡ 0)
Contained _ _ _ _ _ _ = ⊥

abbrev pub IsWithin : CheriCap → CheriCap → Type 0
IsWithin parent child =
    Contained parent.base parent.length parent.permissions child.base child.length child.permissions

-- `base + length` of two values that may be None, as in the property `bound`.
abbrev end_of : Option ℕ → Option ℕ → Option ℕ
end_of b l = elim b [ none ↦ none | some n ↦ elim l [ none ↦ none | some m ↦ some (n + m) ] ]

valid-check :
    (a b : Bool) (x : Result Bool) → a ≡ true → b ≡ true → (if a && b then x else ok false) ≡ x
valid-check a b x h k = rw (h, k) refl

-- Two valid capabilities of which the check finds no violation: all fields are set, the base of the
-- child is not below and its end not above that of the parent, and no permission bit is new.
pub is_violation-IsWithin :
    (parent child : CheriCap)
    → parent.valid ≡ true
    → child.valid ≡ true
    → is_violation parent child ≡ ok false
    → IsWithin parent child
unfolding is_violation opt_lt has_extra bound
is_violation-IsWithin parent child h k e =
    go parent.base parent.length parent.permissions child.base child.length child.permissions
      (sym (valid-check parent.valid child.valid _ h k) ∙ e)
  where
    go :
        (pb pl pp cb cl cp : Option ℕ)
        → or_else (opt_lt cb pb) (or_else (opt_lt (end_of pb pl) (end_of cb cl)) (has_extra cp pp))
          ≡ ok false
        → Contained pb pl pp cb cl cp
    go (some pb) (some pl) (some pp) (some cb) (some cl) (some cp) f = ground (arith, f)
    go none pl pp none cl cp f = cc
    go none pl pp (some cb) cl cp f = cc
    go (some pb) pl pp none cl cp f = cc
    go (some pb) none pp (some cb) cl cp f = ground (arith, f)
    go (some pb) (some pl) pp (some cb) none cp f = ground (arith, f)
    go (some pb) (some pl) none (some cb) (some cl) none f = ground (arith, f)
    go (some pb) (some pl) none (some cb) (some cl) (some cp) f = ground (arith, f)
    go (some pb) (some pl) (some pp) (some cb) (some cl) none f = ground (arith, f)
