-- ===== src/Visit/ExecveCall.antt =====
-- What FindLastExecve does with one edge, and where it has got to.
use cheriplot.Base.{
  none, some, inl, inr, ℕ, ◌≡◌, refl, List, ◌⊎◌, true, ◌<◌, if◌then◌else◌, ◌≤◌, false, ◌&&◌, subst,
  arith, Among,
}
use cheriplot.Model.Manager.{VertexData, prov, absent}
use cheriplot.Graph.{GraphTool}
use cheriplot.Visit.State.{Visit, in_call}
use cheriplot.Visit.Execve.{
  FindLastExecve, examine_edge, is_syscall, found_execve, has_address, examine_execve, execve_code,
}
use cheriplot.Model.Vertex.{CallVertexData}
use cheriplot.Base.Errors.{ok}
use cheriplot.Base.Int.{pos, negsuc, ltb_ℤ}
use cheriplot.Parser.State.{as_call}
use cheriplot.Base.Post.{Post, Post-if, Post-cases, failed, Post-choose, done, Post-result}

module _ ⦃gt : GraphTool⦄ where
  -- The edge is a system call of the number of execve, which has returned.
  pub record IsExecve (s : Visit) (e t_return : ℕ) : Type 0 where
    pub calls : in_call e s ≡ true
    pub is_system_call : is_syscall (s.pgm.edge_operation e) ≡ true
    pub call : CallVertexData
    pub has_data : s.pgm.data_of (gt.target s.pgm.graph e) ≡ VertexData.call call
    pub is_execve : has_address call.address execve_code ≡ true
    pub returned : call.t_return ≡ some t_return

  -- Two calls of execve do not overlap, unless they are the same, and a call ends after its start.
  abbrev pub IsSequential : Visit → List ℕ → Type 0
  IsSequential s es =
      (e x r q : ℕ)
      → Among e es
      → Among x es
      → IsExecve s e r
      → IsExecve s x q
      → (s.pgm.edge_time e < r) × ((e ≡ x) ⊎ ((r ≤ s.pgm.edge_time x) ⊎ (q ≤ s.pgm.edge_time e)))

  -- Where the visitor has got to.
  pub record IsFound (s : Visit) (es : List ℕ) (f : FindLastExecve) (e r : ℕ) : Type 0 where
    pub among : Among e es
    pub execve : IsExecve s e r
    pub last : f.last_execve ≡ pos (s.pgm.edge_time e)
    pub call : f.execve_call ≡ pos (s.pgm.edge_time e)
    pub return_time : f.execve_return ≡ pos r
    pub vertex : f.execve_vertex ≡ some (gt.target s.pgm.graph e)

  abbrev pub Found : Visit → List ℕ → FindLastExecve → Type 0
  Found s es f =
      ((f.last_execve ≡ negsuc 0) × (f.execve_call ≡ negsuc 0) × (f.execve_vertex ≡ none))
      ⊎ ((e : ℕ) × (r : ℕ) × IsFound s es f e r)

  -- What one edge does.
  abbrev pub Outcome : ℕ → FindLastExecve → FindLastExecve → Type 0
  Outcome e f g =
      ((g ≡ f) × ((r : ℕ) → ¬ IsExecve f.visit e r))
      ⊎ ((r : ℕ) × IsExecve f.visit e r
          × (g ≡ (if ltb_ℤ f.last_execve (pos r) then found_execve e r f else f)))

  as_call-data : (x : VertexData) (d : CallVertexData) → as_call x ≡ ok d → x ≡ VertexData.call d
  as_call-data absent d h = cc
  as_call-data (prov x) d h = cc
  as_call-data (VertexData.call x) d h = cc

  -- The data of the target is that of a call of execve, or the edge is none.
  no-IsExecve_data :
      (s : Visit) (e r : ℕ) (d : CallVertexData)
      → s.pgm.data_of (gt.target s.pgm.graph e) ≡ VertexData.call d
      → has_address d.address execve_code ≡ false
      → ¬ IsExecve s e r
  no-IsExecve_data s e r d h other x =
      let same : x.call ≡ d = cc (x.has_data, h) in
      cc (subst (λ c. has_address c.address execve_code ≡ true) same x.is_execve, other)

  no-IsExecve_edge :
      (s : Visit) (e r : ℕ)
      → (in_call e s && is_syscall (s.pgm.edge_operation e)) ≡ false
      → ¬ IsExecve s e r
  no-IsExecve_edge s e r other x = cc (rw (x.calls, x.is_system_call) at other)

  examine_execve-Outcome :
      (e : ℕ) (f : FindLastExecve) (d : CallVertexData)
      → in_call e f.visit ≡ true
      → is_syscall (f.visit.pgm.edge_operation e) ≡ true
      → f.visit.pgm.data_of (gt.target f.visit.pgm.graph e) ≡ VertexData.call d
      → Post (λ _ g. Outcome e f g) (examine_execve e d f)
  unfolding examine_execve
  examine_execve-Outcome e f d c op h =
      Post-if (has_address d.address execve_code) _ _ f
        (λ is.
          Post-cases d.t_return _ _ f (λ t. failed)
            (λ r t.
              let execve : IsExecve f.visit e r = record {
                calls = c;
                is_system_call = op;
                call = d;
                has_data = h;
                is_execve = is;
                returned = t;
              } in
              Post-choose (ltb_ℤ f.last_execve (pos r)) _ f
                (λ later. done (inr (r, execve, rw later refl)))
                (λ earlier. inr (r, execve, rw earlier refl))))
        (λ other. done (inl (refl, λ r. no-IsExecve_data f.visit e r d h other)))

  pub examine_edge-Outcome :
      (e : ℕ) (f : FindLastExecve) → Post (λ _ g. Outcome e f g) (examine_edge e f)
  unfolding examine_edge
  examine_edge-Outcome e f =
      Post-if (in_call e f.visit && is_syscall (f.visit.pgm.edge_operation e)) _ _ f
        (λ both.
          Post-result (as_call (f.visit.pgm.data_of (gt.target f.visit.pgm.graph e))) f _ (λ d ran.
            examine_execve-Outcome e f d (ground arith) (ground arith) (as_call-data _ d ran)))
        (λ other. done (inl (refl, λ r. no-IsExecve_edge f.visit e r other)))
