-- ===== src/Store/Consistency.antt =====
-- What stays true of a store of internal/infrastructure/memory/store.go under every method.
use route_analysis_service.Prelude.{
  String, List, [], Bool, true, false, ◌==◌, if◌then◌else◌, Map, lookup, insert, contains, ≡-of_eq,
  lookup-insert, Option, none, some, All, Option-cases, inl, inr, ◌≡◌, refl, sym, ap, subst, ◌∙◌,
  arith,
}
use text.Mathlib.TextEquality.{eq_iff}
use route_analysis_service.Model.Float.{Float64}
use route_analysis_service.Model.Types.{Dataset, Node, Edge, Incident}
use route_analysis_service.Model.Validation.{validate_dataset, validate_incident}
use route_analysis_service.Model.Error.{Result, ok, err}
use route_analysis_service.Store.Defs.{
  Graph, Store, after_call, created_dataset, create_dataset, load_nodes, load_edges, next_version,
  installed, imported, put_graph, put_graph,
}
use route_analysis_service.Store.Import.{
  passed, bound, ok_inj, GraphFits, load_nodes-NodeFits, load_edges-EdgeFits,
}

-- What holds before a call and after each success holds after the call.
pub kept :
    {S : Type 0} (P : S → Type 0) (s : S) (r : Result S)
    → P s
    → ((t : S) → r ≡ ok t → P t)
    → P (after_call s r).0
kept P s (ok t) p h = h t refl
kept P s (err e) p h = p

absent :
    {V : Type 0} (k j : String) (m : Map V)
    → contains k m ≡ false
    → (k == j) ≡ true
    → lookup j m ≡ none
absent k j m e same = elim (Option-cases (lookup k m)) [
  | inl q ↦ ground (arith, eq_iff k j)
  | inr (v, q) ↦ ground (arith, q)
]

-- A map after an insertion, at the key and elsewhere.
pub at_insert :
    {V : Type 0} (P : Option V → Type 0) (k j : String) (v : V) (m : Map V)
    → ((k == j) ≡ true → P (some v))
    → ((k == j) ≡ false → P (lookup j m))
    → P (lookup j (insert k v m))
at_insert P k j v m here there = subst P (sym (lookup-insert k j v m)) (by_test (k == j) here there)
  where
    by_test :
        (b : Bool)
        → (b ≡ true → P (some v))
        → (b ≡ false → P (lookup j m))
        → P (if b then some v else lookup j m)
    by_test true h t = h refl
    by_test false h t = t refl

module _ {F : Type 0} ⦃fl : Float64 F⦄ where
  -- A stored graph is that of a stored dataset, which has its version.
  abbrev pub GraphAt : String → Option (Graph F) → Option Dataset → Type 0
  GraphAt id none d = Unit
  GraphAt id (some g) none = ⊥
  GraphAt id (some g) (some d) = GraphFits id g × (d.version ≡ g.version)

  -- A stored incident has its key as its id, names its dataset and is valid.
  abbrev pub IncidentFits : String → String × Incident F → Type 0
  IncidentFits id e = (e.1.id ≡ e.0) × (e.1.dataset_id ≡ id) × (validate_incident e.1 ≡ ok tt)

  abbrev pub IncidentsAt : String → Option (Map (Incident F)) → Option Dataset → Type 0
  IncidentsAt id none d = Unit
  IncidentsAt id (some m) none = ⊥
  IncidentsAt id (some m) (some d) = All (IncidentFits id) m

  -- Graphs and incidents belong to datasets that are there, and fit them.
  pub record IsConsistent (s : Store F) : Type 0 where
    pub graphs_fit : (id : String) → GraphAt id (lookup id s.graphs) (lookup id s.datasets)
    pub incidents_fit :
        (id : String) → IncidentsAt id (lookup id s.incidents) (lookup id s.datasets)

  GraphAt-absent :
      (id : String) (g : Option (Graph F)) (d : Dataset) → GraphAt id g none → GraphAt id g (some d)
  GraphAt-absent id none d h = tt
  GraphAt-absent id (some g) d h = absurd h

  IncidentsAt-absent :
      (id : String) (m : Option (Map (Incident F))) (d : Dataset)
      → IncidentsAt id m none
      → IncidentsAt id m (some d)
  IncidentsAt-absent id none d h = tt
  IncidentsAt-absent id (some m) d h = absurd h

  -- What the incidents promise does not look into the dataset.
  IncidentsAt-any :
      (id : String) (m : Option (Map (Incident F))) (d d' : Dataset)
      → IncidentsAt id m (some d)
      → IncidentsAt id m (some d')
  IncidentsAt-any id none d d' h = tt
  IncidentsAt-any id (some m) d d' h = h

  pub create_dataset-IsConsistent :
      (s : Store F) (d : Dataset) → IsConsistent s → IsConsistent (create_dataset s d).0
  unfolding create_dataset created_dataset
  create_dataset-IsConsistent s d c = kept IsConsistent s (created_dataset s d) c λ t e.
      let (u, valid, r) = bound (validate_dataset d) _ t e in
      let (fresh, r2) = passed (contains d.id s.datasets) _ _ t r in
      subst IsConsistent (ok_inj r2) (record {
        graphs_fit = λ id.
            at_insert (GraphAt id (lookup id s.graphs)) d.id id d s.datasets
              (λ same. GraphAt-absent id (lookup id s.graphs) d (
                subst (GraphAt id (lookup id s.graphs)) (absent d.id id s.datasets fresh same)
                  (c.graphs_fit id)))
              (λ _. c.graphs_fit id);
        incidents_fit = λ id.
            at_insert (IncidentsAt id (lookup id s.incidents)) d.id id d s.datasets
              (λ same. IncidentsAt-absent id (lookup id s.incidents) d (
                subst (IncidentsAt id (lookup id s.incidents))
                  (absent d.id id s.datasets fresh same) (c.incidents_fit id)))
              (λ _. c.incidents_fit id);
      })

  installed-IsConsistent :
      (s : Store F) (id : String) (d : Dataset) (g : Graph F)
      → lookup id s.datasets ≡ some d
      → GraphFits id g
      → IsConsistent s
      → IsConsistent (installed s id d g)
  installed-IsConsistent s id d g found fits c = record {
    graphs_fit = λ j.
        at_insert (λ o. GraphAt j o (lookup j (insert id (at_version d) s.datasets))) id j g
          s.graphs
          (λ same.
            at_insert (GraphAt j (some g)) id j (at_version d) s.datasets
              (λ _. (subst (λ k. GraphFits k g) (≡-of_eq id j same) fits, refl))
              (λ ne. ground (arith, same, ne)))
          (λ ne.
            at_insert (GraphAt j (lookup j s.graphs)) id j (at_version d) s.datasets
              (λ same. ground (arith, same, ne)) (λ _. c.graphs_fit j));
    incidents_fit = λ j.
        at_insert (IncidentsAt j (lookup j s.incidents)) id j (at_version d) s.datasets
          (λ same. IncidentsAt-any j (lookup j s.incidents) d (at_version d) (
            subst (IncidentsAt j (lookup j s.incidents))
              (ap (λ k. lookup k s.datasets) (sym (≡-of_eq id j same)) ∙ found)
              (c.incidents_fit j)))
          (λ _. c.incidents_fit j);
  }
    where
      at_version : Dataset → Dataset
      at_version d = record d { version = g.version }

  imported-IsConsistent :
      (s : Store F) (id : String) (nodes : List (Node F)) (edges : List (Edge F))
      (o : Option Dataset) (t : Store F)
      → lookup id s.datasets ≡ o
      → imported s id nodes edges o ≡ ok t
      → IsConsistent s
      → IsConsistent t
  unfolding imported
  imported-IsConsistent s id nodes edges none t found e c = cc
  imported-IsConsistent s id nodes edges (some d) t found e c =
      let (ns, loaded, r) = bound (load_nodes id [] nodes) _ t e in
      let (es, joined, r2) = bound (load_edges id ns [] edges) _ t r in
      subst IsConsistent (ok_inj r2) (
        installed-IsConsistent s id d
          (record { nodes = ns; edges = es; version = next_version s id }) found
          (record {
            nodes_fit = load_nodes-NodeFits id [] nodes ns loaded tt;
            edges_fit = load_edges-EdgeFits id ns [] edges es joined tt;
          })
          c)

  pub put_graph-IsConsistent :
      (s : Store F) (id : String) (nodes : List (Node F)) (edges : List (Edge F))
      → IsConsistent s
      → IsConsistent (put_graph s id nodes edges).0
  unfolding put_graph
  put_graph-IsConsistent s id nodes edges c =
      kept IsConsistent s (imported s id nodes edges (lookup id s.datasets)) c
        λ t e. imported-IsConsistent s id nodes edges (lookup id s.datasets) t refl e c
