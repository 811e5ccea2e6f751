-- ===== src/Subgraph/Gathered.antt =====
-- What _merge_trace_beginning gathers from the children of a vertex.
use cheriplot.Base.{
  [], ◌∷◌, some, inl, inr, ℕ, ◌≡◌, refl, List, Among, true, ◌⊎◌, ap, ◌∙◌, ◌≢◌, false, sym,
}
use cheriplot.Model.Manager.{prov}
use cheriplot.Model.Vertex.{ProvenanceVertexData, is_root}
use cheriplot.Subgraph.Roots.{RootFields, add_fields, gather, children}
use cheriplot.Model.Cap.{CheriCap}
use cheriplot.Graph.{GraphTool}
use cheriplot.Parser.State.{as_prov, as_cap, as_prov-data, as_cap-some}
use cheriplot.Subgraph.State.{Merge}
use cheriplot.Base.Post.{Post, done, Post-result, Post-mono, Post-if, Post-bind}
use cheriplot.Subgraph.Covers.{
  Covered, Widens, Widens-refl, Widens-trans, Covered-Widens, add_fields-Covered,
}

bool_clash : true ≢ false
bool_clash e = cc

module _ ⦃gt : GraphTool⦄ where
  -- The data of a vertex of the subgraph is that of a capability within the range and the bits.
  pub record IsCovered (f : RootFields) (s : Merge) (u : ℕ) : Type 0 where
    pub vertex_data : ProvenanceVertexData
    pub capability : CheriCap
    pub has_data : s.curr.pgm.data_of u ≡ prov vertex_data
    pub has_cap : vertex_data.cap ≡ some capability
    pub covered : Covered f capability

  IsCovered-Widens :
      (f g : RootFields) (s : Merge) (u : ℕ) → IsCovered f s u → Widens f g → IsCovered g s u
  IsCovered-Widens f g s u x w = record {
    vertex_data = x.vertex_data;
    capability = x.capability;
    has_data = x.has_data;
    has_cap = x.has_cap;
    covered = Covered-Widens f g x.capability x.covered w;
  }

  pub gather-Covered :
      (us : List ℕ) (f : RootFields) (s : Merge)
      → Post
          (λ g t. (t ≡ s) × Widens f g × ((u : ℕ) → Among u us → IsCovered g s u))
          (gather us f s)
  unfolding gather
  gather-Covered [] f s = done (refl, Widens-refl f, λ u a. absurd a)
  gather-Covered (u ∷ us) f s = Post-result (as_prov (s.curr.pgm.data_of u)) s _ λ d given.
      Post-result (as_cap d.cap) s _ λ c cap. Post-result (add_fields f c) s _ λ g added.
        let first = add_fields-Covered f g c added in
        Post-mono (gather-Covered us g s) λ h t rest. (
          rest.0,
          Widens-trans f g h first.0 rest.1,
          λ w a. elim a [
            | inl same ↦ record {
              vertex_data = d;
              capability = c;
              has_data = ap s.curr.pgm.data_of same ∙ as_prov-data _ d given;
              has_cap = as_cap-some d.cap c cap;
              covered = Covered-Widens g h c first.1 rest.1;
            }
            | inr later ↦ rest.2 w later
          ],
        )

  -- The children are split, and none is lost.
  pub children-split :
      (us : List ℕ) (s : Merge)
      → Post
          (λ found t.
            (t ≡ s)
            × ((u : ℕ)
                → Among u us
                → s.curr.pgm.layer_prov u ≡ true
                → Among u found.0 ⊎ Among u found.1))
          (children us s)
  unfolding children
  children-split [] s = done (refl, λ u a l. absurd a)
  children-split (u ∷ us) s =
      Post-if (s.curr.pgm.layer_prov u) _ _ s
        (λ in_layer. Post-result (as_prov (s.curr.pgm.data_of u)) s _ λ d given.
          Post-bind (children-split us s) λ rest t found.
            Post-if (is_root d.origin) _ _ t
              (λ r. done (
                found.0,
                λ w a l. elim a [
                  | inl same ↦ inl (inl same)
                  | inr later ↦ elim (found.1 w later l) [ inl x ↦ inl (inr x) | inr x ↦ inr x ]
                ],
              ))
              (λ r. done (
                found.0,
                λ w a l. elim a [
                  | inl same ↦ inr (inl same)
                  | inr later ↦ elim (found.1 w later l) [ inl x ↦ inl x | inr x ↦ inr (inr x) ]
                ],
              )))
        (λ other. Post-mono (children-split us s) λ found t h. (
          h.0,
          λ w a l. elim a [
            | inl same ↦ absurd (bool_clash (sym l ∙ (ap s.curr.pgm.layer_prov same ∙ other)))
            | inr later ↦ h.1 w later l
          ],
        ))
