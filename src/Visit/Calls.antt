-- ===== src/Visit/Calls.antt =====
-- The visitors of provenance/visit/filters.py that follow calls, and of symbols.py.
use cheriplot.Model.EventType
use cheriplot.Visit.State.{
  call_data, Visit, in_prov, in_layer_prov, put_named, in_call, prov_data, new_named,
}
use cheriplot.Base.{
  ℕ, String, Bool, true, false, not, ◌&&◌, ◌||◌, Option, none, some, if◌then◌else◌, List, ◌∷◌,
  update, str_eq, [], ◌+◌, mem_nat, is_some, bit_or,
}
use cheriplot.Model.Manager.{EdgeOperation, set_data, VertexData}
use cheriplot.Base.Int.{ℤ, negsuc, ltb_ℤ, pos}
use cheriplot.Graph.{GraphTool}
use cheriplot.Base.Errors.{
  M, pure, ◌>>=◌, get, modify, ◌>>◌, when, of_result, raise, attribute_error,
}
use cheriplot.Visit.Base.{decorate_visit, GraphVisit, ignore}
use cheriplot.Model.Vertex.{CallVertexData, Event, has_flag}
use cheriplot.Visit.Decorate.{spread, any_row, rows}
use cheriplot.Visit.Execve.{is_return, is_syscall, has_address}
use cheriplot.Parser.State.{as_call}

abbrev pub one_of : String → List String → Bool
one_of name [] = false
one_of name (x ∷ xs) = let rest = one_of name xs in str_eq name x || rest

-- `data.symbol and (data.symbol == … or …)`
abbrev pub has_symbol : Option String → List String → Bool
has_symbol none names = false
has_symbol (some name) names = one_of name names

abbrev pub malloc_symbols : List String
malloc_symbols =
    "__malloc" ∷ "__calloc" ∷ "__realloc" ∷ "__je_malloc" ∷ "__je_calloc" ∷ "malloc" ∷ "calloc"
    ∷ "realloc" ∷ []

abbrev pub call_malloc_symbols : List String
call_malloc_symbols = "__malloc" ∷ "__calloc" ∷ "malloc" ∷ "calloc" ∷ []

abbrev pub abi_retcap : ℕ
abi_retcap = 3

abbrev pub is_call : EdgeOperation → Bool
is_call EdgeOperation.call = true
is_call _ = false

-- What the visitors ask of the symbol reader of dbg/symbols.py.
pub record SymReader : Type 0 where
  pub is_capreloc : ℕ → Bool
  pub get_captable : ℕ → Option ℕ
  -- `find_address`: the symbol and its file.
  pub find_address : ℤ → Option (String × String)

module _ ⦃gt : GraphTool⦄ where
  -- DecorateMalloc: the calls that return a vertex in the register of the result.
  unfoldable pub malloc_loop : ℕ → List ℕ → M Visit (Unit {0})
  malloc_loop v [] = pure tt
  malloc_loop v (eout ∷ es) = do
    s ← get
    let dst = gt.target s.pgm.graph eout
    if s.pgm.layer_call dst
          && (is_return (s.pgm.edge_operation eout) && mem_nat abi_retcap (s.pgm.edge_regs eout))
        then (do
          d ← call_data dst
          when (has_symbol d.symbol malloc_symbols) (modify (put_named "annotated_malloc" v true)))
        else pure tt
    malloc_loop v es

  unfoldable pub malloc_vertex : ℕ → M Visit (Unit {0})
  unfolding malloc_loop
  malloc_vertex v = do
    p ← in_layer_prov v
    s ← get
    if p then malloc_loop v (gt.out_edges s.pgm.graph v) else pure tt

  unfoldable pub decorate_malloc : GraphVisit
  unfolding decorate_visit malloc_vertex spread
  decorate_malloc =
      decorate_visit "annotated_malloc" malloc_vertex (λ e. modify (spread "annotated_malloc" e))

  -- DecorateMmap and DecorateMalloc_Deprecated: the target of a call, if a test of it holds.
  unfoldable pub mark_call :
      String → (EdgeOperation → Bool) → (CallVertexData → Bool) → ℕ → M Visit (Unit {0})
  mark_call name op test e = do
    s ← get
    let dst = gt.target s.pgm.graph e
    if in_call e s && op (s.pgm.edge_operation e)
        then (do d ← call_data dst; when (test d) (modify (put_named name dst true)))
        else pure tt

  unfoldable pub decorate_mmap : GraphVisit
  unfolding decorate_visit mark_call
  decorate_mmap =
      decorate_visit "sys_mmap" ignore
        (mark_call "sys_mmap" is_syscall (λ d. has_address d.address 477))

  unfoldable pub decorate_malloc_deprecated : GraphVisit
  unfolding decorate_visit mark_call
  decorate_malloc_deprecated =
      decorate_visit "call_malloc" ignore
        (mark_call "call_malloc" is_call (λ d. has_symbol d.symbol call_malloc_symbols))

  -- DecorateCapRelocs: what its loop over the rows does, which stops at the first one found.
  unfoldable pub mark_rows : String → (Event → Bool) → ℕ → List Event → Visit → Visit
  mark_rows name test v rows s = if any_row test rows then put_named name v true s else s

  unfoldable pub capreloc_vertex : SymReader → ℕ → M Visit (Unit {0})
  unfolding mark_rows
  capreloc_vertex sym v = do
    p ← in_layer_prov v
    if p
        then (do
          d ← prov_data v
          modify (
              mark_rows "annotated_capreloc" (λ r. sym.is_capreloc r.addr) v
                (rows (λ r. has_flag r.type EventType.store) d.events))
          modify (
              mark_rows "annotated_caprelocptr" (λ r. sym.is_capreloc r.addr) v
                (rows (λ r. has_flag r.type (bit_or EventType.deref_store EventType.deref_is_cap))
                  d.events)))
        else pure tt

  unfoldable pub decorate_cap_relocs : SymReader → GraphVisit
  unfolding decorate_visit capreloc_vertex
  decorate_cap_relocs sym =
      record (decorate_visit "annotated_capreloc" (capreloc_vertex sym) ignore) {
        init = λ s. new_named "annotated_caprelocptr" (new_named "annotated_capreloc" s);
      }

  -- DecorateGlobalPointers
  unfoldable pub globptr_vertex : SymReader → ℕ → M Visit (Unit {0})
  unfolding mark_rows
  globptr_vertex sym v = do
    p ← in_layer_prov v
    if p
        then (do
          d ← prov_data v
          modify (
              mark_rows "annotated_globptr" (λ r. is_some (sym.get_captable r.addr)) v
                (rows (λ r. has_flag r.type EventType.load || has_flag r.type EventType.store)
                  d.events))
          modify (
              mark_rows "annotated_captblptr" (λ r. is_some (sym.get_captable r.addr)) v
                (rows (λ r. has_flag r.type (bit_or EventType.deref_load EventType.deref_is_cap))
                  d.events)))
        else pure tt

  unfoldable pub globptr_edge : ℕ → Visit → Visit
  globptr_edge e s =
      let src = gt.source s.pgm.graph e in
      if in_prov e s && (s.vp "annotated_globptr" src || s.vp "annotated_globderived" src)
      then put_named "annotated_globderived" (gt.target s.pgm.graph e) true s
      else s

  unfoldable pub decorate_global_pointers : SymReader → GraphVisit
  unfolding decorate_visit globptr_vertex globptr_edge
  decorate_global_pointers sym =
      record (decorate_visit "annotated_globptr" (globptr_vertex sym)
        (λ e. modify (globptr_edge e))) {
          init = λ s.
              new_named "annotated_globderived"
                (new_named "annotated_captblptr" (new_named "annotated_globptr" s));
        }

  -- DecorateMmapReturn and DecorateMallocReturn: the mask holds the vertex that a call returned,
  -- and -1 where there is none.
  pub record ReturnVisit : Type 0 where
    pub visit : Visit
    pub from_call : ℕ → ℤ

  unfoldable pub call_return : Visit → ReturnVisit
  call_return s = record { visit = s; from_call = λ v. negsuc 0 }

  unfoldable pub put_from : ℕ → ℤ → ReturnVisit → ReturnVisit
  put_from v z r = record r { from_call = update r.from_call v z }

  unfoldable pub return_edge : String → ℕ → M ReturnVisit (Unit {0})
  unfolding put_from
  return_edge marked e = do
    r ← get
    let src = gt.source r.visit.pgm.graph e
    let dst = gt.target r.visit.pgm.graph e
    let derived = modify (λ (q : ReturnVisit).
        if r.visit.pgm.layer_prov dst && not (ltb_ℤ (r.from_call src) (pos 0))
        then put_from dst (r.from_call src) q
        else q)
    if r.visit.pgm.layer_prov src
        then (if r.visit.pgm.layer_call dst && is_return (r.visit.pgm.edge_operation e)
            then (if r.visit.has_vp marked
                then (if r.visit.vp marked dst then modify (put_from src (pos src)) else derived)
                else raise attribute_error)
            else derived)
        else pure tt

  unfoldable pub return_edges : String → List ℕ → M ReturnVisit (Unit {0})
  unfolding return_edge
  return_edges marked [] = pure tt
  return_edges marked (e ∷ es) = do return_edge marked e; return_edges marked es

  -- ResolveSymbolsGraphVisit of symbols.py: the state of the graph and its two counters.
  pub record ResolveSymbols : Type 0 where
    pub visit : Visit
    pub num_found : ℕ
    pub evaluated : ℕ

  -- An address without a symbol raises a TypeError, which is caught.
  unfoldable pub resolve : SymReader → ℕ → CallVertexData → ResolveSymbols → ResolveSymbols
  resolve sym dst d r = elim d.address [
    | none ↦ r
    | some address ↦ elim (sym.find_address address) [
      | none ↦ r
      | some (name, file) ↦ record r {
        visit = record r.visit {
          pgm =
              set_data dst
                (VertexData.call (record d { symbol = some name; symbol_file = some file }))
                r.visit.pgm;
        };
        num_found = r.num_found + 1;
      }
    ]
  ]

  unfoldable pub resolve_edge : SymReader → ℕ → M ResolveSymbols (Unit {0})
  unfolding resolve
  resolve_edge sym e = do
    r ← get
    let dst = gt.target r.visit.pgm.graph e
    if in_call e r.visit
        then (do
          modify (λ q. record q { evaluated = q.evaluated + 1 })
          if is_call (r.visit.pgm.edge_operation e)
              then (do
                d ← of_result (as_call (r.visit.pgm.data_of dst))
                modify (resolve sym dst d))
              else pure tt)
        else pure tt

  pub resolve_edges : SymReader → List ℕ → M ResolveSymbols (Unit {0})
  unfolding resolve_edge
  resolve_edges sym [] = pure tt
  resolve_edges sym (e ∷ es) = do resolve_edge sym e; resolve_edges sym es
