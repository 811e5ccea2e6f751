-- ===== src/Chunks.antt =====
-- How MultiprocessCallbackParser.parse of core/parser/base.py splits a trace among its workers. The
-- processes are not modelled: a worker is the pair of indices that it is given.
use native.Mathlib.Nat.{
  mul-add-div, mul-div_right, div-eq_of_lt, div-add-mod', mul_comm, div-lt_iff_lt-mul,
  le-div_iff_mul-le,
}
use cheriplot.Base.{
  [], ◌∷◌, none, some, inl, inr, ℕ, zero, suc, ◌≡◌, ◌≤◌, ◌<◌, ◌+◌, ◌-◌, ◌*◌, ◌/◌, ◌%◌, refl, arith,
  Option, List, if◌then◌else◌, length, ◌==◌, subst, ap, ◌∙◌, ◌⊎◌, Bool-cases,
}

pub data SplitError : Type 0 where
  assertion zero_division index_error : SplitError

pub data Split (A : Type 0) : Type 0 where
  split : A → Split A
  raised : SplitError → Split A

-- `start if start != None else 0` and `end + 1 if end != None else len(self)`
abbrev pub first_index : Option ℕ → ℕ
first_index none = 0
first_index (some n) = n

abbrev pub end_index : ℕ → Option ℕ → ℕ
end_index length none = length
end_index length (some n) = n + 1

abbrev pub count_from : ℕ → ℕ → ℕ → List ℕ
count_from zero n step = []
count_from (suc k) n step = n ∷ count_from k (n + step) step

-- `np.arange(a, b, step)` for a step that is not 0.
abbrev pub arange : ℕ → ℕ → ℕ → List ℕ
arange a b step = count_from ((b - a + step - 1) / step) a step

-- `end_indexes[-1] += rest`
pub add_last : ℕ → List ℕ → Split (List ℕ)
add_last rest [] = raised index_error
add_last rest (x ∷ []) = split ((x + rest) ∷ [])
add_last rest (x ∷ y ∷ xs) = elim (add_last rest (y ∷ xs)) [
  | split ys ↦ split (x ∷ ys)
  | raised e ↦ raised e
]

abbrev pub zip : List ℕ → List ℕ → List (ℕ × ℕ)
zip [] ys = []
zip (x ∷ xs) [] = []
zip (x ∷ xs) (y ∷ ys) = (x, y) ∷ zip xs ys

-- The split of the interval from `start` up to `end_`, without it: `parse` comes to it for two workers
-- or more.
unfoldable pub blocks : (start end_ threads : ℕ) → Split (List (ℕ × ℕ))
unfolding add_last
blocks start end_ threads =
    let block_size = (end_ - start) / threads in
    let rest = (end_ - start) % threads in
    if block_size == 0
    then raised zero_division
    else elim (add_last rest (arange (start + block_size - 1) (end_ - rest) block_size)) [
      | raised e ↦ raised e
      | split end_indexes ↦ split (zip (arange start (end_ - rest) block_size) end_indexes)
    ]

-- What `parse` hands out for a trace of some length: one worker gets the whole interval, with the
-- index behind its end, and more share it in blocks, each with the index of its last entry.
unfoldable pub parse_blocks : (start end_ : Option ℕ) (length threads : ℕ) → Split (List (ℕ × ℕ))
unfolding blocks
parse_blocks start end_ length threads =
    if threads == 0
    then raised assertion
    else if threads == 1
    then split ((first_index start, end_index length end_) ∷ [])
    else blocks (first_index start) (end_index length end_) threads

-- The blocks cover the interval from the first index on, each behind the one before.
abbrev pub Tile : (from to : ℕ) → List (ℕ × ℕ) → Type 0
Tile from to [] = from ≡ to
Tile from to ((first, last) ∷ bs) = (first ≡ from) × (first ≤ last) × Tile (last + 1) to bs

Tile-cast : (a b c d : ℕ) (bs : List (ℕ × ℕ)) → a ≡ b → c ≡ d → Tile a c bs → Tile b d bs
Tile-cast a b c d bs p q t = subst (λ x. Tile x d bs) p (subst (λ y. Tile a y bs) q t)

-- What the split says of `k` blocks and one.
abbrev Tiled : (k start last block rest : ℕ) → Type 0
Tiled k start last block rest =
    (ends : List ℕ) × (add_last rest (count_from (suc k) last block) ≡ split ends)
    × Tile start (start + suc k * block + rest) (zip (count_from (suc k) start block) ends)
    × (length (zip (count_from (suc k) start block) ends) ≡ suc k)

regular_blocks :
    (k start last block rest : ℕ)
    → 0 < block
    → last + 1 ≡ start + block
    → Tiled k start last block rest
unfolding add_last
regular_blocks zero start last block rest h e =
    ((last + rest) ∷ [], refl, (refl, omega arith, omega arith), refl)
regular_blocks (suc k) start last block rest h e =
    let later = regular_blocks k (start + block) (last + block) block rest h (omega arith) in
    (
      last ∷ later.0,
      ap (λ r. elim r [ split ys ↦ split (last ∷ ys) | raised x ↦ raised x ]) later.1,
      (
        refl,
        omega arith,
        Tile-cast (start + block) (last + 1) (start + block + suc k * block + rest)
            (start + suc (suc k) * block + rest) _ (omega arith) (grind arith) later.2,
      ),
      ap suc later.3,
    )

whole_blocks : (block threads : ℕ) → 0 < block → (block * threads + (block - 1)) / block ≡ threads
whole_blocks block threads h =
    mul-add-div h threads (block - 1)
    ∙ (ap (λ n. threads + n) (div-eq_of_lt (omega arith)) ∙ omega arith)

block-le : (block threads : ℕ) → 0 < threads → block ≤ block * threads
block-le block zero h = absurd (omega arith)
block-le block (suc k) h = grind arith

-- The number of steps of both ranges, for an interval of `threads` blocks and a rest.
module _ (start end_ block rest threads : ℕ) (h : 0 < block) (k : 0 < threads)
    (e : end_ ≡ start + (block * threads + rest)) where
  first_count : (end_ - rest - start + block - 1) / block ≡ threads
  first_count = ap (λ n. n / block) (omega (arith, e)) ∙ whole_blocks block threads h

  last_count : (end_ - rest - (start + block - 1) + block - 1) / block ≡ threads
  last_count =
      ap (λ n. n / block) (omega (arith, e, block-le block threads k)) ∙ mul-div_right threads h

-- The starts and the ends that `parse` makes.
tiled_blocks :
    (start end_ block rest threads : ℕ)
    → 0 < block
    → 0 < threads
    → end_ ≡ start + (block * threads + rest)
    → (ends : List ℕ) × (add_last rest (arange (start + block - 1) (end_ - rest) block)
        ≡ split ends)
      × Tile start end_ (zip (arange start (end_ - rest) block) ends)
      × (length (zip (arange start (end_ - rest) block) ends) ≡ threads)
tiled_blocks start end_ block rest zero h k e = absurd (omega arith)
tiled_blocks start end_ block rest (suc n) h k e =
    let t = regular_blocks n start (start + block - 1) block rest h (omega arith) in
    rw
      (
        first_count start end_ block rest (suc n) h k e,
        last_count start end_ block rest (suc n) h k e,
      )
      (
        t.0,
        t.1,
        Tile-cast start start (start + suc n * block + rest) end_ _ refl
            (omega (arith, e, mul_comm (suc n) block)) t.2,
        t.3,
      )

-- Where there is a worker and the interval does not end before it starts, either there are at least
-- as many entries as workers, and each worker gets a block, of which the first starts the interval,
-- each other one starts behind the one before, and the last ends the interval; or there are fewer,
-- and the split raises a ZeroDivisionError.
pub blocks_lem :
    (start end_ threads : ℕ)
    → start ≤ end_
    → 0 < threads
    → ((threads ≤ end_ - start)
        × (bs : List (ℕ × ℕ)) × (blocks start end_ threads ≡ split bs)
        × Tile start end_ bs
        × (length bs ≡ threads))
      ⊎ ((end_ - start < threads) × (blocks start end_ threads ≡ raised zero_division))
unfolding blocks
blocks_lem start end_ threads h k = elim (Bool-cases ((end_ - start) / threads == 0)) [
  | inl none_left ↦
      let zero_block : (end_ - start) / threads < 1 = ground arith in
      let few = (div-lt_iff_lt-mul {k = threads} {x = end_ - start} {y = 1} k).0 zero_block in
      inr (omega (arith, few), rw none_left refl)
  | inr some_left ↦
      let one_block : 1 ≤ (end_ - start) / threads = ground arith in
      let many = (le-div_iff_mul-le {k = threads} {x = 1} {y = end_ - start} k).0 one_block in
      let t =
        tiled_blocks start end_ ((end_ - start) / threads) ((end_ - start) % threads) threads
          one_block k (omega (arith, h, div-add-mod' (end_ - start) threads)) in
      inl (
        omega (arith, many),
        zip (arange start (end_ - (end_ - start) % threads) ((end_ - start) / threads)) t.0,
        rw (some_left, t.1) refl,
        t.2,
        t.3,
      )
]
