-- ===== src/Subgraph/Covers.antt =====
-- The range and the bits that `_merge_trace_beginning` collects from the children cover each child.
use cheriplot.Base.{
  some, inl, inr, ℕ, ◌≡◌, ◌≤◌, ◌+◌, arith, Option, Option-cases, if◌then◌else◌, subst, ltb, bit_or,
  length,
}
use cheriplot.Base.Bits.{HasBits, bit_or-left, bit_or-right}
use cheriplot.Subgraph.Roots.{RootFields, add_fields}
use cheriplot.Model.Cap.{CheriCap}
use cheriplot.Base.Errors.{ok, err}

-- A capability with all fields lies within the range and the bits collected.
pub record Covered (f : RootFields) (c : CheriCap) : Type 0 where
  pub base : ℕ
  pub length : ℕ
  pub permissions : ℕ
  pub has_base : c.base ≡ some base
  pub has_length : c.length ≡ some length
  pub has_permissions : c.permissions ≡ some permissions
  pub above : f.base ≤ base
  pub below : base + length ≤ f.bound
  pub bits : HasBits f.perms permissions

-- The range only grows, and so do the bits.
pub record Widens (f g : RootFields) : Type 0 where
  pub base : g.base ≤ f.base
  pub bound : f.bound ≤ g.bound
  pub bits : (p : ℕ) → HasBits f.perms p → HasBits g.perms p

pub Widens-refl : (f : RootFields) → Widens f f
Widens-refl f = record { base = omega arith; bound = omega arith; bits = λ p h. h }

pub Widens-trans : (f g h : RootFields) → Widens f g → Widens g h → Widens f h
Widens-trans f g h a b = record {
  base = omega arith;
  bound = omega arith;
  bits = λ p k. b.bits p (a.bits p k);
}

pub Covered-Widens : (f g : RootFields) (c : CheriCap) → Covered f c → Widens f g → Covered g c
Covered-Widens f g c x w = record {
  base = x.base;
  length = x.length;
  permissions = x.permissions;
  has_base = x.has_base;
  has_length = x.has_length;
  has_permissions = x.has_permissions;
  above = omega arith;
  below = omega arith;
  bits = w.bits x.permissions x.bits;
}

-- What `add_fields` returns for a base, a length and permissions.
abbrev joined : RootFields → ℕ → ℕ → ℕ → Option ℕ → RootFields
joined f base length permissions otype = record {
  base = if ltb base f.base then base else f.base;
  bound = if ltb f.bound (base + length) then base + length else f.bound;
  perms = bit_or f.perms permissions;
  otype = otype;
}

joined-Covered :
    (f : RootFields) (c : CheriCap) (base length permissions : ℕ)
    → c.base ≡ some base
    → c.length ≡ some length
    → c.permissions ≡ some permissions
    → Widens f (joined f base length permissions c.objtype)
      × Covered (joined f base length permissions c.objtype) c
joined-Covered f c base length permissions b l p = (
  record {
    base = ground arith;
    bound = ground arith;
    bits = λ q h. bit_or-left q f.perms permissions h;
  },
  record {
    base = base;
    length = length;
    permissions = permissions;
    has_base = b;
    has_length = l;
    has_permissions = p;
    above = ground arith;
    below = ground arith;
    bits = bit_or-right permissions f.perms;
  },
)

pub add_fields-Covered :
    (f g : RootFields) (c : CheriCap) → add_fields f c ≡ ok g → Widens f g × Covered g c
unfolding add_fields
add_fields-Covered f g c h = elim (Option-cases c.base) [
  | inl e ↦ cc (rw e at h)
  | inr (base, b) ↦ elim (Option-cases c.length) [
    | inl e ↦ cc (rw (b, e) at h)
    | inr (length, l) ↦ elim (Option-cases c.permissions) [
      | inl e ↦ cc (rw (b, l, e) at h)
      | inr (permissions, p) ↦
          subst (λ r. elim r [ ok x ↦ Widens f x × Covered x c | err _ ↦ Unit {0} ])
            (rw (b, l, p) at h) (joined-Covered f c base length permissions b l p)
    ]
  ]
]
