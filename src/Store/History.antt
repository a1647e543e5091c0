-- ===== src/Store/History.antt =====
-- Sequences of calls on the store of internal/infrastructure/memory/store.go. The lock makes the calls
-- of all goroutines one sequence, whatever order they come in.
use route_analysis_service.Prelude.{String, List, [], ◌∷◌, ℤ, lookup}
use route_analysis_service.Model.Float.{Float64}
use route_analysis_service.Model.Types.{Dataset, Node, Edge, Incident, AnalysisJob}
use route_analysis_service.Store.Defs.{
  Store, new_store, create_dataset, put_graph, create_incident, update_incident, create_job,
  update_job,
}
use route_analysis_service.Store.Consistency.{
  IsConsistent, create_dataset-IsConsistent, put_graph-IsConsistent,
}
use route_analysis_service.Store.Writes.{
  create_incident-IsConsistent, update_incident-IsConsistent, create_job-IsConsistent,
  update_job-IsConsistent,
}

-- A call of a method that writes to the store.
pub data Call (F : Type 0) : Type 0 where
  added_dataset : Dataset → Call F
  imported_graph : String → List (Node F) → List (Edge F) → Call F
  added_incident : Incident F → Call F
  changed_incident : Incident F → ℤ → Call F
  added_job changed_job : AnalysisJob F → Call F

module _ {F : Type 0} ⦃fl : Float64 F⦄ where
  unfoldable pub step : Store F → Call F → Store F
  step s (Call.added_dataset d) = (create_dataset s d).0
  step s (Call.imported_graph id nodes edges) = (put_graph s id nodes edges).0
  step s (Call.added_incident i) = (create_incident s i).0
  step s (Call.changed_incident i expected) = (update_incident s i expected).0
  step s (Call.added_job j) = (create_job s j).0
  step s (Call.changed_job j) = (update_job s j).0

  unfoldable pub calls : Store F → List (Call F) → Store F
  calls s [] = s
  calls s (c ∷ cs) = calls (step s c) cs

  step-IsConsistent : (s : Store F) (c : Call F) → IsConsistent s → IsConsistent (step s c)
  unfolding step
  step-IsConsistent s (Call.added_dataset d) k = create_dataset-IsConsistent s d k
  step-IsConsistent s (Call.imported_graph id nodes edges) k =
      put_graph-IsConsistent s id nodes edges k
  step-IsConsistent s (Call.added_incident i) k = create_incident-IsConsistent s i k
  step-IsConsistent s (Call.changed_incident i expected) k =
      update_incident-IsConsistent s i expected k
  step-IsConsistent s (Call.added_job j) k = create_job-IsConsistent s j k
  step-IsConsistent s (Call.changed_job j) k = update_job-IsConsistent s j k

  calls_from-IsConsistent :
      (s : Store F) (cs : List (Call F)) → IsConsistent s → IsConsistent (calls s cs)
  unfolding calls
  calls_from-IsConsistent s [] k = k
  calls_from-IsConsistent s (c ∷ cs) k =
      calls_from-IsConsistent (step s c) cs (step-IsConsistent s c k)

  -- After any sequence of calls on a new store, whichever of them fail, the store is consistent. Each
  -- graph belongs to a stored dataset that has its version, its nodes and its edges are valid, are
  -- stored under their ids and name the dataset, and its edges join stored nodes. The incidents of a
  -- dataset belong to a stored dataset, are valid, are stored under their ids and name the dataset.
  pub calls-IsConsistent : (cs : List (Call F)) → IsConsistent (calls (new_store {F = F}) cs)
  unfolding new_store lookup
  calls-IsConsistent cs =
      calls_from-IsConsistent new_store cs
        (record { graphs_fit = λ id. tt; incidents_fit = λ id. tt })
