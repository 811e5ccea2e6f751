-- ===== src/Visit/SliceTimes.antt =====
-- What the filters of ProvGraphTimeSlice in provenance/visit/slice.py accept.
use cheriplot.Model.EventType
use cheriplot.Graph.{GraphTool}
use cheriplot.Visit.Slice.{Slice, filter_alloc_time, filter_event_time, matches}
use cheriplot.Visit.State.{Visit, cap_of}
use cheriplot.Visit.Decorate.{any_row, rows}
use cheriplot.Base.{
  false, Bool, ℕ, ◌≡◌, List, true, Has, some, ◌↔◌, ◌⊎◌, ◌||◌, ◌&&◌, leb, arith, if◌then◌else◌, ◌∷◌,
  inl, Bool-cases, subst, refl, inr, not, [], sym, ◌∙◌, ◌==◌, ◌≢◌,
}
use cheriplot.Model.Vertex.{Event, ProvenanceVertexData, has_flag}
use cheriplot.Model.Manager.{Pgm, prov}
use cheriplot.Model.Cap.{CheriCap}
use cheriplot.Base.Post.{Post, Post-bind, done, Post-if, Post-result}
use cheriplot.Parser.State.{as_cap, as_cap-some}
use cheriplot.Base.Errors.{◌>>=◌, pure}
use cheriplot.Base.Int.{ltb_ℤ, pos}

pub absurd_bool : ¬ (false ≡ true)
absurd_bool e = cc e

pub prov-injective : (c d : ProvenanceVertexData) → prov c ≡ prov d → c ≡ d
prov-injective c d e = cc e

pub apart : (w v : ℕ) → (w == v) ≡ false → w ≢ v
apart w v h = ground arith

or_iff :
    {P Q : Type 0} (a b : Bool) → ((a ≡ true) ↔ P) → ((b ≡ true) ↔ Q) → ((a || b) ≡ true) ↔ (P ⊎ Q)
or_iff true b h k = (λ e. inl (h.0 refl), λ e. refl)
or_iff false b h k =
    (λ e. inr (k.0 e), λ c. elim c [ inl p ↦ absurd (absurd_bool (h.1 p)) | inr q ↦ k.1 q ])

pub and_iff : {Q : Type 0} (a b : Bool) → ((b ≡ true) ↔ Q) → ((a && b) ≡ true) ↔ ((a ≡ true) × Q)
and_iff true b k = (λ e. (refl, k.0 e), λ c. k.1 c.1)
and_iff false b k = (λ e. absurd (absurd_bool e), λ c. absurd (absurd_bool c.0))

any_row-rows :
    (p q : Event → Bool) (es : List Event)
    → (any_row p (rows q es) ≡ true) ↔ Has (λ r. (q r ≡ true) × (p r ≡ true)) es
any_row-rows p q [] = (λ e. absurd (absurd_bool e), λ h. absurd h)
any_row-rows p q (e ∷ es) = elim (Bool-cases (q e)) [
  | inl y ↦
      rw y (or_iff (p e) (any_row p (rows q es)) (λ h. (refl, h), λ h. h.1) (any_row-rows p q es))
  | inr n ↦
      let later = any_row-rows p q es in
      rw n
        (λ h. inr (later.0 h), λ h. elim h [ inl x ↦ absurd (absurd_bool x.0) | inr x ↦ later.1 x ])
]

-- An event of the mask lies between the times of the slice.
abbrev pub HasEvent : Slice → ℕ → List Event → Type 0
HasEvent f mask es =
    Has
      (λ r. (has_flag r.type mask ≡ true) × ((leb f.start r.time && leb r.time f.end_time) ≡ true))
      es

-- The capability was made between the times of the slice.
abbrev pub IsMade : Slice → ProvenanceVertexData → Type 0
IsMade f d =
    (c : CheriCap) × (d.cap ≡ some c)
    × (ltb_ℤ c.t_alloc (pos f.start) ≡ false)
    × (ltb_ℤ (pos f.end_time) c.t_alloc ≡ false)

abbrev pub Matches : Slice → ProvenanceVertexData → Type 0
Matches f d =
    ((f.creation_time ≡ true) × IsMade f d)
    ⊎ (((f.deref_time ≡ true) × HasEvent f EventType.deref_mask d.events)
        ⊎ ((f.access_time ≡ true) × HasEvent f EventType.memop_mask d.events))

module _ ⦃gt : GraphTool⦄ where
  abbrev pub InSlice : Slice → Pgm → ℕ → Type 0
  InSlice f pgm v =
      (pgm.layer_prov v ≡ true)
      × (d : ProvenanceVertexData) × (pgm.data_of v ≡ prov d)
      × Matches f d

  filter_alloc_time-IsMade :
      (f : Slice) (d : ProvenanceVertexData) (c : CheriCap)
      → d.cap ≡ some c
      → (filter_alloc_time f c ≡ true) ↔ IsMade f d
  unfolding filter_alloc_time
  filter_alloc_time-IsMade f d c e = (
    λ h. (c, e, ground arith, ground arith),
    λ m.
        let same : m.0 ≡ c = cc (m.1, e) in
        subst
          (λ x.
            (not (ltb_ℤ x.t_alloc (pos f.start)) && not (ltb_ℤ (pos f.end_time) x.t_alloc)) ≡ true)
          same (rw (m.2, m.3) refl),
  )

  alloc-lem :
      (f : Slice) (d : ProvenanceVertexData) (s : Visit)
      → Post
          (λ b t. (t ≡ s) × ((b ≡ true) ↔ ((f.creation_time ≡ true) × IsMade f d)))
          ((if f.creation_time then (do c ← cap_of d; pure (filter_alloc_time f c)) else pure false)
            s)
  alloc-lem f d s =
      Post-if f.creation_time _ _ s
        (λ on. Post-result (as_cap d.cap) s _ λ c e.
          let made = filter_alloc_time-IsMade f d c (as_cap-some d.cap c e) in
          done (refl, (λ h. (on, made.0 h), λ h. made.1 h.1)))
        λ off. done (refl, (λ h. absurd (absurd_bool h), λ h. absurd (absurd_bool (sym off ∙ h.0))))

  pub matches-Matches :
      (f : Slice) (d : ProvenanceVertexData) (s : Visit)
      → Post (λ b t. (t ≡ s) × ((b ≡ true) ↔ Matches f d)) (matches f d s)
  unfolding matches filter_event_time
  matches-Matches f d s = Post-bind (alloc-lem f d s) λ a t h. done (
    h.0,
    or_iff a _ h.1 (
        or_iff _ _ (and_iff f.deref_time _ (any_row-rows _ _ d.events))
          (and_iff f.access_time _ (any_row-rows _ _ d.events))),
  )
