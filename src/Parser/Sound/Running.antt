-- ===== src/Parser/Sound/Running.antt =====
-- The invariant of a worker, and the rules for the steps that its callbacks consist of.
use cheriplot.Base.Post.{Post, done, failed, Post-bind, Post-mono}
use cheriplot.Graph.{GraphTool}
use cheriplot.Model.Manager.{Pgm}
use cheriplot.Parser.Worker.{Worker, Callback, lift}
use cheriplot.Base.Errors.{M, Result, ok, err}
use cheriplot.Parser.State.{Core}
use cheriplot.Base.{
  Bool, ℕ, List, ◌<◌, Option, arith, if◌then◌else◌, ◌≡◌, ◌∙◌, false, true, ◌∷◌, [], some, none, ◌≢◌,
}
use cheriplot.Parser.Defer.{maybe_scan, unless_paused}
use cheriplot.Parser.Shape.{IsSound, Grows, Grows-refl, Grows-trans, Next, Grows-IsNode}
use cheriplot.Parser.Sound.Regs.{IsHeld, Next-IsHeld}
use cheriplot.Base.Int.{ℤ}

module _ ⦃gt : GraphTool⦄ where
  -- A vertex outside the provenance layer.
  pub record IsFrame (p : Pgm) (v : ℕ) : Type 0 where
    pub below : v < gt.num_vertices p.graph
    pub outside : p.layer_prov v ≡ false

  abbrev pub AreFrames : Pgm → List (ℕ × Option ℤ) → Type 0
  AreFrames p [] = Unit {0}
  AreFrames p (f ∷ fs) = IsFrame p f.0 × AreFrames p fs

  -- The root is at the bottom of the stack, and only there.
  abbrev pub IsStack : ℕ → List (ℕ × Option ℤ) → Type 0
  IsStack r [] = ⊥
  IsStack r (f ∷ []) = f.0 ≡ r
  IsStack r (f ∷ g ∷ fs) = (f.0 ≢ r) × IsStack r (g ∷ fs)

  pub record IsRunning (w : Worker) : Type 0 where
    pub sound : IsSound w.core
    pub saved : IsHeld w.core w.branch.saved_pcc
    pub frames : AreFrames w.core.pgm w.calls.call_stack
    pub stack : IsStack w.calls.root w.calls.call_stack

  -- A step of the worker.
  pub record Later (w v : Worker) : Type 0 where
    pub running : IsRunning v
    pub grows : Grows w.core.pgm v.core.pgm

  pub Later-refl : {w : Worker} → IsRunning w → Later w w
  Later-refl {w} h = record { running = h; grows = Grows-refl w.core.pgm }

  pub Later-trans : {w v u : Worker} → Later w v → Later v u → Later w u
  Later-trans a b = record { running = b.running; grows = Grows-trans a.grows b.grows }

  pub Grows-IsFrame : {p q : Pgm} {v : ℕ} → Grows p q → IsFrame p v → IsFrame q v
  Grows-IsFrame {p} {q} {v} g f = record {
    below = omega (arith, g.more, f.below);
    outside = g.layer v f.below ∙ f.outside;
  }

  pub Grows-AreFrames :
      {p q : Pgm} (fs : List (ℕ × Option ℤ)) → Grows p q → AreFrames p fs → AreFrames q fs
  Grows-AreFrames [] g h = tt
  Grows-AreFrames (f ∷ fs) g h = (Grows-IsFrame g h.0, Grows-AreFrames fs g h.1)

  -- A step of the shared state that leaves the rest alone.
  pub core-Later :
      (w : Worker) (t : Core) → IsRunning w → Next w.core t → Later w (record w { core = t })
  core-Later w t h n = record {
    running = record {
      sound = n.sound;
      saved = Next-IsHeld w.branch.saved_pcc n h.saved;
      frames = Grows-AreFrames w.calls.call_stack n.grows h.frames;
      stack = h.stack;
    };
    grows = n.grows;
  }

  -- A step of the other fields.
  pub same-Later :
      (w v : Worker)
      → IsRunning w
      → IsSound v.core
      → Grows w.core.pgm v.core.pgm
      → IsHeld v.core v.branch.saved_pcc
      → AreFrames v.core.pgm v.calls.call_stack
      → IsStack v.calls.root v.calls.call_stack
      → Later w v
  same-Later w v h s g a b c = record {
    running = record { sound = s; saved = a; frames = b; stack = c };
    grows = g;
  }

  lifted-Later :
      {A : Type 0} (w : Worker) (r : Result (A × Core))
      → IsRunning w
      → Post (λ _ t. Next w.core t) r
      → Post
          (λ _ v. Later w v)
          (elim r as (λ _. Result (A × Worker)) [
            | ok (a, c) ↦ ok (a, record w { core = c })
            | err e ↦ err e
          ])
  lifted-Later w r h (done {a} {t} n) = done (core-Later w t h n)
  lifted-Later w r h failed = failed

  pub lift-Later :
      {A : Type 0} (m : M Core A) (w : Worker)
      → IsRunning w
      → Post (λ _ t. Next w.core t) (m w.core)
      → Post (λ _ v. Later w v) (lift m w)
  lift-Later m w h p = lifted-Later w (m w.core) h p

  lifted-Held :
      {A : Type 0} {P : A → Core → Type 0} (w : Worker) (r : Result (A × Core))
      → IsRunning w
      → Post (λ a t. Next w.core t × P a t) r
      → Post
          (λ a v. Later w v × P a v.core)
          (elim r as (λ _. Result (A × Worker)) [
            | ok (a, c) ↦ ok (a, record w { core = c })
            | err e ↦ err e
          ])
  lifted-Held w r h (done {a} {t} (n, p)) = done (core-Later w t h n, p)
  lifted-Held w r h failed = failed

  pub lift-Held :
      {A : Type 0} {P : A → Core → Type 0} (m : M Core A) (w : Worker)
      → IsRunning w
      → Post (λ a t. Next w.core t × P a t) (m w.core)
      → Post (λ a v. Later w v × P a v.core) (lift m w)
  lift-Held m w h p = lifted-Held w (m w.core) h p

  pub Later-bind :
      {A B : Type 0} {w : Worker} {r : Result (A × Worker)} {f : A → Worker → Result (B × Worker)}
      → Post (λ _ v. Later w v) r
      → ((a : A) (v : Worker) → IsRunning v → Post (λ _ u. Later v u) (f a v))
      → Post (λ _ u. Later w u) (elim r [ ok (a, v) ↦ f a v | err e ↦ err e ])
  Later-bind m k = Post-bind m λ a v n. Post-mono (k a v n.running) λ _ u l. Later-trans n l

  pub Keep-bind :
      {A B : Type 0} {P : A → Worker → Type 0} {w : Worker} {r : Result (A × Worker)}
      {f : A → Worker → Result (B × Worker)}
      → Post (λ a v. Later w v × P a v) r
      → ((a : A) (v : Worker) → Later w v → P a v → Post (λ _ u. Later v u) (f a v))
      → Post (λ _ u. Later w u) (elim r [ ok (a, v) ↦ f a v | err e ↦ err e ])
  Keep-bind m k = Post-bind m λ a v (n, p). Post-mono (k a v n p) λ _ u l. Later-trans n l

  -- A callback keeps the invariant.
  abbrev pub Keeps : M Worker (Unit {0}) → Type 0
  Keeps m = (w : Worker) → IsRunning w → Post (λ _ v. Later w v) (m w)

  paused-Post :
      (b : Bool) (w : Worker) (r : Result (Unit {0} × Worker))
      → IsRunning w
      → Post (λ _ v. Later w v) r
      → Post (λ _ v. Later w v) (if b then ok (tt, w) else r)
  paused-Post true w r h p = done (Later-refl h)
  paused-Post false w r h p = p

  pub unless_paused-Keeps : (m : M Worker (Unit {0})) → Keeps m → Keeps (unless_paused m)
  unless_paused-Keeps m k w h = paused-Post w.paused w (m w) h (k w h)

  pub maybe_scan-Keeps : (cbk : Callback) (addr : Option ℕ) → Keeps (maybe_scan cbk addr)
  unfolding maybe_scan
  maybe_scan-Keeps cbk addr w h =
      done (same-Later w _ h h.sound (Grows-refl w.core.pgm) h.saved h.frames h.stack)

  pub lift-Keeps :
      (m : M Core (Unit {0}))
      → ((s : Core) → IsSound s → Post (λ _ t. Next s t) (m s))
      → Keeps (lift m)
  lift-Keeps m k w h = lift-Later m w h (k w.core h.sound)

  pub Later-IsHeld : {w v : Worker} (u : Option ℕ) → Later w v → IsHeld w.core u → IsHeld v.core u
  Later-IsHeld none l h = tt
  Later-IsHeld (some u) l h = Grows-IsNode l.grows h

  -- A step that the statements behind it already run in.
  pub then_ :
      {B : Type 0} {w v : Worker} {r : Result (B × Worker)}
      → Later w v
      → Post (λ _ u. Later v u) r
      → Post (λ _ u. Later w u) r
  then_ n p = Post-mono p λ _ u l. Later-trans n l
