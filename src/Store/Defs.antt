-- ===== src/Store/Defs.antt =====
-- internal/infrastructure/memory/store.go. The lock makes each method one step from a store to a
-- store; a context is never read. The copies made by the clone functions keep values from being
-- shared, as a model of values does by itself.
use route_analysis_service.Prelude.{
  String, List, [], ◌∷◌, filter, not, ◌==◌, ℤ, pos, eq_ℤ, ◌+64◌, Map, lookup, insert, contains,
  values, Option, none, some, SortSlice,
}
use route_analysis_service.Model.Float.{Float64}
use route_analysis_service.Model.Time.{before, after}
use route_analysis_service.Model.Types.{Dataset, Node, Edge, Incident, AnalysisJob}
use route_analysis_service.Model.Validation.{
  validate_dataset, validate_node, validate_edge, validate_incident, validate_job,
}
use route_analysis_service.Model.Access.{by_priority}
use route_analysis_service.Model.Error.{
  Result, ok, err, not_found, conflict, message, reject_if, ◌>>=◌, ◌>>◌,
}

pub record Graph (F : Type 0) : Type 0 where
  pub nodes : Map (Node F)
  pub edges : Map (Edge F)
  pub version : ℤ

pub record Store (F : Type 0) : Type 0 where
  pub datasets : Map Dataset
  pub graphs : Map (Graph F)
  pub incidents : Map (Map (Incident F))
  pub jobs : Map (AnalysisJob F)

-- A method that fails leaves the store as it was.
abbrev pub after_call : {S : Type 0} → S → Result S → S × Result (Unit {0})
after_call s (ok t) = (t, ok tt)
after_call s (err e) = (s, err e)

module _ {F : Type 0} where
  unfoldable pub new_store : Store F
  new_store = record { datasets = []; graphs = []; incidents = []; jobs = [] }

  unfoldable pub get_dataset : Store F → String → Result Dataset
  get_dataset s id = elim (lookup id s.datasets) [ none ↦ err not_found | some d ↦ ok d ]

  unfoldable pub created_dataset : Store F → Dataset → Result (Store F)
  created_dataset s d = do
    validate_dataset d
    reject_if (contains d.id s.datasets) conflict
    ok (record s { datasets = insert d.id d s.datasets })

  -- `s.incidents[id]`, which is nil for a dataset without incidents.
  abbrev pub incidents_of : Store F → String → Map (Incident F)
  incidents_of s id = elim (lookup id s.incidents) [ none ↦ [] | some m ↦ m ]

  unfoldable pub graph : Store F → String → Result (List (Node F) × List (Edge F) × ℤ)
  graph s id = elim (lookup id s.graphs) [
    | none ↦ err not_found
    | some g ↦ ok (values g.nodes, values g.edges, g.version)
  ]

  unfoldable pub get_job : Store F → String → Result (AnalysisJob F)
  get_job s id = elim (lookup id s.jobs) [ none ↦ err not_found | some j ↦ ok j ]

  unfoldable pub updated_job : Store F → AnalysisJob F → Result (Store F)
  updated_job s j = do
    reject_if (not (contains j.id s.jobs)) not_found
    ok (record s { jobs = insert j.id j s.jobs })

  unfoldable pub update_job : Store F → AnalysisJob F → Store F × Result (Unit {0})
  unfolding updated_job
  update_job s j = after_call s (updated_job s j)

  unfoldable pub create_dataset : Store F → Dataset → Store F × Result (Unit {0})
  unfolding created_dataset
  create_dataset s d = after_call s (created_dataset s d)

  module _ ⦃slice : SortSlice⦄ where
    unfoldable pub list_datasets : Store F → List Dataset
    list_datasets s =
        slice.sort Dataset (λ a b. before a.created_at b.created_at) (values s.datasets)

    unfoldable pub list_incidents : Store F → String → List (Incident F)
    list_incidents s id = slice.sort (Incident F) by_priority (values (incidents_of s id))

    unfoldable pub list_jobs : Store F → String → List (AnalysisJob F)
    list_jobs s id =
        slice.sort (AnalysisJob F) (λ a b. after a.created_at b.created_at)
          (filter (λ j. j.dataset_id == id) (values s.jobs))

module _ {F : Type 0} ⦃fl : Float64 F⦄ where
  unfoldable pub load_node : String → Map (Node F) → Node F → Result (Map (Node F))
  load_node id m n = do
    validate_node n
    reject_if (not (n.dataset_id == id)) (message "node dataset mismatch")
    reject_if (contains n.id m) conflict
    ok (insert n.id n m)

  unfoldable pub load_nodes : String → Map (Node F) → List (Node F) → Result (Map (Node F))
  load_nodes id m [] = ok m
  load_nodes id m (n ∷ ns) = load_node id m n >>= λ m'. load_nodes id m' ns

  unfoldable pub load_edge : String → Map (Node F) → Map (Edge F) → Edge F → Result (Map (Edge F))
  load_edge id nodes m e = do
    validate_edge e
    reject_if (not (e.dataset_id == id)) (message "edge dataset mismatch")
    reject_if (not (contains e.from nodes)) (message "edge origin missing")
    reject_if (not (contains e.to nodes)) (message "edge destination missing")
    reject_if (contains e.id m) conflict
    ok (insert e.id e m)

  unfoldable pub load_edges :
      String → Map (Node F) → Map (Edge F) → List (Edge F) → Result (Map (Edge F))
  load_edges id nodes m [] = ok m
  load_edges id nodes m (e ∷ es) = load_edge id nodes m e >>= λ m'. load_edges id nodes m' es

  -- One more than the version of the graph that is there, or 1.
  unfoldable pub next_version : Store F → String → ℤ
  next_version s id = elim (lookup id s.graphs) [ none ↦ pos 1 | some old ↦ old.version +64 pos 1 ]

  abbrev pub installed : Store F → String → Dataset → Graph F → Store F
  installed s id d g = record s {
    graphs = insert id g s.graphs;
    datasets = insert id (record d { version = g.version }) s.datasets;
  }

  unfoldable pub imported :
      Store F → String → List (Node F) → List (Edge F) → Option Dataset → Result (Store F)
  unfolding load_nodes load_edges next_version
  imported s id nodes edges none = err not_found
  imported s id nodes edges (some d) = do
    ns ← load_nodes id [] nodes
    es ← load_edges id ns [] edges
    ok (installed s id d (record { nodes = ns; edges = es; version = next_version s id }))

  unfoldable pub put_graph :
      Store F → String → List (Node F) → List (Edge F) → Store F × Result (Unit {0})
  put_graph s id nodes edges = after_call s (imported s id nodes edges (lookup id s.datasets))

  unfoldable pub created_incident : Store F → Incident F → Result (Store F)
  created_incident s i = do
    validate_incident i
    reject_if (not (contains i.dataset_id s.datasets)) not_found
    reject_if (contains i.id (incidents_of s i.dataset_id)) conflict
    ok (record s {
      incidents =
          insert i.dataset_id
            (insert i.id (record i { version = pos 1 }) (incidents_of s i.dataset_id)) s.incidents;
    })

  unfoldable pub create_incident : Store F → Incident F → Store F × Result (Unit {0})
  create_incident s i = after_call s (created_incident s i)

  abbrev pub incident_at : Store F → String → String → Option (Incident F)
  incident_at s dataset id = lookup id (incidents_of s dataset)

  unfoldable pub replaced : Store F → Incident F → ℤ → Option (Incident F) → Result (Store F)
  replaced s i expected none = err not_found
  replaced s i expected (some current) = do
    reject_if (not (eq_ℤ current.version expected)) conflict
    ok (record s {
      incidents =
          insert i.dataset_id
            (insert i.id (record i { version = current.version +64 pos 1 })
              (incidents_of s i.dataset_id))
            s.incidents;
    })

  unfoldable pub updated_incident : Store F → Incident F → ℤ → Result (Store F)
  unfolding replaced
  updated_incident s i expected = do
    validate_incident i
    replaced s i expected (incident_at s i.dataset_id i.id)

  unfoldable pub update_incident : Store F → Incident F → ℤ → Store F × Result (Unit {0})
  update_incident s i expected = after_call s (updated_incident s i expected)

  unfoldable pub created_job : Store F → AnalysisJob F → Result (Store F)
  created_job s j = do
    validate_job j
    reject_if (not (contains j.dataset_id s.datasets)) not_found
    reject_if (contains j.id s.jobs) conflict
    ok (record s { jobs = insert j.id j s.jobs })

  unfoldable pub create_job : Store F → AnalysisJob F → Store F × Result (Unit {0})
  unfolding created_job
  create_job s j = after_call s (created_job s j)
