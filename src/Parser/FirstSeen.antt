-- ===== src/Parser/FirstSeen.antt =====
-- What the vertex memory map (provenance/parser/base.py) remembers for the merge of the workers.
use cheriplot.Base.{
  [], ◌∷◌, none, some, ℕ, List, Option, if◌then◌else◌, ◌==◌, IsDict, lookup, ◌≡◌, insert-IsDict,
  refl, Dict, erase, sym, ◌∙◌, is_some, ap, insert, lookup-insert, arith, subst, erase-IsDict,
  lookup-erase, update, update_self, Bool-cases, inl, true, inr, false,
}
use cheriplot.Graph.{GraphTool}
use cheriplot.Parser.VertexMap.{mem_load, mem_store, clear, register_load}
use cheriplot.Base.Errors.{M, pure, ◌>>◌, ◌>>=◌, ok, Result, err, key_error}
use cheriplot.Parser.State.{Core}
use cheriplot.Base.Post.{Post, done, Post-if, Post-bind, failed, Post-ok}
use cheriplot.Parser.Initial.{new_core, new_pgm}

-- An access to the memory map: a load that finds a new vertex, a plain load, a store or a removal.
pub data Access : Type 0 where
  load_new : ℕ → ℕ → Access
  load_known : ℕ → Access
  store_at : ℕ → ℕ → Access
  clear_at : ℕ → Access

-- The vertex of the first load of a new vertex at an address.
unfoldable pub first_load : ℕ → List Access → Option ℕ
first_load a [] = none
first_load a (load_new b v ∷ xs) = if a == b then some v else first_load a xs
first_load a (load_known b ∷ xs) = first_load a xs
first_load a (store_at b v ∷ xs) = first_load a xs
first_load a (clear_at b ∷ xs) = first_load a xs

-- The memory that the map stands for: a partial function from addresses. A removal where nothing is
-- stored raises. An access returns what a load finds.
unfoldable pub perform : Access → (ℕ → Option ℕ) → Result (Option ℕ × (ℕ → Option ℕ))
perform (load_new b v) m = ok (some v, update m b (some v))
perform (load_known b) m = ok (m b, m)
perform (store_at b v) m = ok (none, update m b (some v))
perform (clear_at b) m = if is_some (m b) then ok (none, update m b none) else err key_error

unfoldable pub perform_all :
    List Access → (ℕ → Option ℕ) → Result (List (Option ℕ) × (ℕ → Option ℕ))
unfolding perform
perform_all [] m = ok ([], m)
perform_all (x ∷ xs) m = elim (perform x m) [
  | err e ↦ err e
  | ok (found, m') ↦ elim (perform_all xs m') [
    | err e ↦ err e
    | ok (rest, m'') ↦ ok (found ∷ rest, m'')
  ]
]

abbrev else_ : Option ℕ → Option ℕ → Option ℕ
else_ none y = y
else_ (some x) y = some x

else_-none : (x : Option ℕ) → else_ x none ≡ x
else_-none none = refl
else_-none (some x) = refl

else_-insert :
    (a b v : ℕ) (m : Dict ℕ) (y : Option ℕ)
    → else_ (lookup a (if is_some (lookup b m) then m else insert b v m)) y
      ≡ else_ (lookup a m) (if a == b then some v else y)
else_-insert a b v m y = ground (arith, lookup-insert a b v m)

-- Two results agree: the same values from the accesses and, address by address, the same memory, or
-- the same exception.
module _ ⦃gt : GraphTool⦄ where
  abbrev pub IsSame : Core → (ℕ → Option ℕ) → Type 0
  IsSame s m = ((a : ℕ) → lookup a s.vertex_map ≡ m a) × IsDict s.vertex_map

  abbrev pub Agree : {A : Type 0} → Result (A × Core) → Result (A × (ℕ → Option ℕ)) → Type 0
  Agree (ok (x, s)) (ok (y, m)) = (x ≡ y) × IsSame s m
  Agree (ok r) (err e) = ⊥
  Agree (err e) (ok q) = ⊥
  Agree (err e) (err e') = e ≡ e'

  unfoldable pub access : Access → M Core (Option ℕ)
  unfolding mem_load mem_store clear
  access (load_new a v) = mem_load a (some v)
  access (load_known a) = mem_load a none
  access (store_at a v) = do mem_store a v; pure none
  access (clear_at a) = do clear a; pure none

  unfoldable pub accesses : List Access → M Core (List (Option ℕ))
  unfolding access
  accesses [] = pure []
  accesses (x ∷ xs) = do found ← access x; rest ← accesses xs; pure (found ∷ rest)

  Agree-bind :
      {A B : Type 0} (r : Result (A × Core)) (q : Result (A × (ℕ → Option ℕ)))
      (k : A → Core → Result (B × Core)) (l : A → (ℕ → Option ℕ) → Result (B × (ℕ → Option ℕ)))
      → Agree r q
      → ((a : A) (s : Core) (m : ℕ → Option ℕ) → IsSame s m → Agree (k a s) (l a m))
      → Agree
          (elim r [ ok (a, s) ↦ k a s | err e ↦ err e ])
          (elim q [ ok (a, m) ↦ l a m | err e ↦ err e ])
  Agree-bind (ok (x, s)) (ok (y, m)) k l h next =
      subst (λ z. Agree (k x s) (l z m)) h.0 (next x s m h.1)
  Agree-bind (ok (x, s)) (err e) k l h next = absurd h
  Agree-bind (err e) (ok (y, m)) k l h next = absurd h
  Agree-bind (err e) (err e') k l h next = h

  insert-IsSame :
      (b v : ℕ) (s : Core) (m : ℕ → Option ℕ)
      → IsSame s m
      → ((a : ℕ) → lookup a (insert b v s.vertex_map) ≡ update m b (some v) a)
        × IsDict (insert b v s.vertex_map)
  insert-IsSame b v s m h = (
    λ a. lookup-insert a b v s.vertex_map ∙ ap (λ x. if a == b then some v else x) (h.0 a),
    insert-IsDict b v s.vertex_map h.1,
  )

  erase-IsSame :
      (b : ℕ) (s : Core) (m : ℕ → Option ℕ)
      → IsSame s m
      → ((a : ℕ) → lookup a (erase b s.vertex_map) ≡ update m b none a)
        × IsDict (erase b s.vertex_map)
  erase-IsSame b s m h = (
    λ a. lookup-erase a b s.vertex_map h.1 ∙ ap (λ x. if a == b then none else x) (h.0 a),
    erase-IsDict b s.vertex_map h.1,
  )

  -- What an access does behind a removal.
  abbrev after : Result (Unit {0} × Core) → Result (Option ℕ × Core)
  after (ok (a, t)) = ok (none, t)
  after (err e) = err e

  clear-there :
      (b : ℕ) (s : Core)
      → is_some (lookup b s.vertex_map) ≡ true
      → clear b s ≡ ok (tt, record s { vertex_map = erase b s.vertex_map })
  unfolding clear
  clear-there b s h = rw (h, clear) refl

  clear-missing :
      (b : ℕ) (s : Core) → is_some (lookup b s.vertex_map) ≡ false → clear b s ≡ err key_error
  unfolding clear
  clear-missing b s h = rw (h, clear) refl

  access-Agree :
      (x : Access) (s : Core) (m : ℕ → Option ℕ) → IsSame s m → Agree (access x s) (perform x m)
  unfolding access perform
  access-Agree (load_new b v) s m h =
      let new = insert-IsSame b v s m h in (new.0 b ∙ update_self m b (some v), new)
  access-Agree (load_known b) s m h = (h.0 b, h)
  access-Agree (store_at b v) s m h = (refl, insert-IsSame b v s m h)
  access-Agree (clear_at b) s m h = elim (Bool-cases (is_some (lookup b s.vertex_map))) [
    | inl there ↦
        let there' : is_some (m b) ≡ true = ap is_some (sym (h.0 b)) ∙ there in
        subst (λ r. Agree (after r) (perform (clear_at b) m)) (sym (clear-there b s there))
          (rw (there', perform) (refl, erase-IsSame b s m h))
    | inr missing ↦
        let missing' : is_some (m b) ≡ false = ap is_some (sym (h.0 b)) ∙ missing in
        subst (λ r. Agree (after r) (perform (clear_at b) m)) (sym (clear-missing b s missing))
          (rw (missing', perform) refl)
  ]

  accesses-Agree :
      (xs : List Access) (s : Core) (m : ℕ → Option ℕ)
      → IsSame s m
      → Agree (accesses xs s) (perform_all xs m)
  unfolding accesses perform_all
  accesses-Agree [] s m h = (refl, h)
  accesses-Agree (x ∷ xs) s m h =
      Agree-bind (access x s) (perform x m) _ _ (access-Agree x s m h) λ found t n k.
        Agree-bind (accesses xs t) (perform_all xs n) _ _ (accesses-Agree xs t n k)
          λ rest u o l. (refl, l)

  clear-initial : (b : ℕ) (s : Core) → Post (λ _ t. t.initial_map ≡ s.initial_map) (clear b s)
  unfolding clear
  clear-initial b s = Post-if (is_some (lookup b s.vertex_map)) _ _ s (λ _. done refl) (λ _. failed)

  accesses-first :
      (xs : List Access) (s : Core) (a : ℕ)
      → Post
          (λ _ t. lookup a t.initial_map ≡ else_ (lookup a s.initial_map) (first_load a xs))
          (accesses xs s)
  unfolding accesses first_load
  accesses-first [] s a = done (sym (else_-none (lookup a s.initial_map)))
  accesses-first (load_new b v ∷ xs) s a =
      Post-bind (accesses-first xs (register_load b v s) a)
        λ _ t h. done (h ∙ else_-insert a b v s.initial_map (first_load a xs))
  accesses-first (load_known b ∷ xs) s a = Post-bind (accesses-first xs s a) λ _ t h. done h
  accesses-first (store_at b v ∷ xs) s a =
      Post-bind (accesses-first xs (record s { vertex_map = insert b v s.vertex_map }) a)
        λ _ t h. done h
  accesses-first (clear_at b ∷ xs) s a =
      Post-bind (Post-bind (clear-initial b s) λ _ t same. done same) λ _ t same.
        Post-bind (accesses-first xs t a)
          λ _ u h. done (h ∙ ap (λ m. else_ (lookup a m) (first_load a xs)) same)

  -- After any accesses to the memory map of a new worker that do not raise, the initial map has at
  -- each address the vertex of the first load of a new vertex there, if there is one, whatever was
  -- stored there before that load.
  pub accesses-initial_map :
      (xs : List Access) (found : List (Option ℕ)) (s : Core) (a : ℕ)
      → accesses xs (new_core new_pgm) ≡ ok (found, s)
      → lookup a s.initial_map ≡ first_load a xs
  unfolding new_core
  accesses-initial_map xs found s a e = Post-ok found s (accesses-first xs (new_core new_pgm) a) e

  -- Any accesses to the memory map of a new worker do what they do to a partial function from
  -- addresses that is empty at first: they return the same vertices and leave the same vertex at each
  -- address, or both raise the KeyError of a removal where nothing is stored.
  pub accesses-vertex_map :
      (xs : List Access) → Agree (accesses xs (new_core new_pgm)) (perform_all xs (λ a. none))
  unfolding new_core
  accesses-vertex_map xs = accesses-Agree xs (new_core new_pgm) (λ a. none) (λ a. refl, tt)
