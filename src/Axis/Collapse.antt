-- ===== src/Axis/Collapse.antt =====
-- `_add_range` of core/plot/patch.py; `_merge` and `_gen_intervals` of core/plot/addrspace_axes.py.
use cheriplot.Base.{
  ℕ, zero, suc, List, [], ◌∷◌, ◌++◌, Option, none, some, Bool, true, false, ltb, leb, ◌==◌, length,
  if◌then◌else◌, ◌+◌, ◌-◌, ◌*◌, ◌&&◌,
}
use cheriplot.Axis.Ranges.{Range, at, SortedRanges}
use Prim.Native.Nat.{max}

-- `s.add(r)` of a set.
abbrev pub add_to_set : Range → List Range → List Range
add_to_set r [] = r ∷ []
add_to_set r (q ∷ qs) =
    let rest = add_to_set r qs in
    if r.start == q.start && r.end_ == q.end_ then q ∷ qs else q ∷ rest

-- The middle of a long range is left out.
unfoldable pub add_range : ℕ → ℕ → ℕ → List Range → List Range
add_range start end_ size_limit ranges =
    if ltb (2 * size_limit) (end_ - start)
    then add_to_set (record { start = end_ - size_limit; end_ = end_ })
        (add_to_set (record { start = start; end_ = start + size_limit }) ranges)
    else add_to_set (record { start = start; end_ = end_ }) ranges

-- The first half of a round: the interval ahead starts a new one, or the current one takes its end.
unfoldable pub absorb : Range → Range → List Range → Range × List Range
absorb curr to_merge out =
    if ltb curr.end_ to_merge.start
    then (to_merge, out ++ curr ∷ [])
    else (record { start = curr.start; end_ = to_merge.end_ }, out)

-- `rs[i - 1]`, whose index wraps at -1.
abbrev pub before : List Range → ℕ → Range
before rs i = at rs (if i == 0 then length rs - 1 else i - 1)

-- The second half: the last interval that starts within the current one.
unfoldable pub extend : List Range → Range → ℕ → Range
extend merged curr end_idx =
    let last = if end_idx == length merged then end_idx - 1 else end_idx in
    record {
      start = curr.start;
      end_ =
          if leb (at merged last).start curr.end_
          then max curr.end_ (at merged last).end_
          else max curr.end_ (before merged last).end_;
    }

-- An interval of the axis; the last one has no end.
pub record Interval : Type 0 where
  pub start : ℕ
  pub end_ : Option ℕ
  pub keep : Bool

unfoldable pub gen_loop : ℕ → List Range → List Interval
gen_loop prev_end [] = record { start = prev_end; end_ = none; keep = false } ∷ []
gen_loop prev_end (r ∷ rs) =
    let rest = gen_loop r.end_ rs in
    let kept = record { start = r.start; end_ = some r.end_; keep = true } ∷ rest in
    if ltb prev_end r.start
    then record { start = prev_end; end_ = some r.start; keep = false } ∷ kept
    else kept

module _ ⦃sr : SortedRanges⦄ where
  unfoldable pub merge_loop : ℕ → List Range → Range → ℕ → List Range → Option (List Range)
  unfolding absorb extend
  merge_loop zero merged curr idx out = none
  merge_loop (suc fuel) merged curr idx out =
      let step = absorb curr (at merged idx) out in
      let end_idx = sr.bisect merged step.0.end_ in
      let rest = merge_loop fuel merged (extend merged step.0 end_idx) end_idx step.1 in
      if ltb idx (length merged) then rest else some (out ++ curr ∷ [])

  -- A round for each interval but the first, and one to end.
  unfoldable pub merge : List Range → Option (List Range)
  unfolding merge_loop
  merge intervals = elim (sr.sorted_list intervals) [
    | [] ↦ some []
    | curr ∷ rest ↦ merge_loop (suc (length rest)) (curr ∷ rest) curr 1 []
  ]

  unfoldable pub gen_intervals : List Range → Option (List Interval)
  unfolding merge gen_loop
  gen_intervals target_ranges = elim (merge target_ranges) [
    | none ↦ none
    | some [] ↦ some []
    | some (r ∷ rs) ↦ some (gen_loop 0 (r ∷ rs))
  ]
