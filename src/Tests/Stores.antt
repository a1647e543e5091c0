-- ===== src/Tests/Stores.antt =====
-- Calls on the store of internal/infrastructure/memory/store.go.
use route_analysis_service.Prelude.{
  ◌↔◌, stable_sort, insert_stable, ℕ, List, [], ◌∷◌, true, false, pos, lookup, ◌≡◌, refl, arith,
}
use route_analysis_service.Model.Float.{small_float}
use route_analysis_service.Model.Time.{window_valid}
use route_analysis_service.Model.Types.{Incident, IncidentStatus}
use route_analysis_service.Model.Validation.{validate_incident}
use route_analysis_service.Model.Error.{ok, err, conflict}
use route_analysis_service.Store.Defs.{
  list_incidents, incident_at, Store, new_store, updated_incident, update_incident, replaced,
}
use route_analysis_service.Store.Consistency.{IsConsistent}
use route_analysis_service.Store.History.{Call, calls, calls-IsConsistent}
use route_analysis_service.Service.Incidents.{
  activate_incident, activate_first, Activated, activate_incident-Activated,
}
use route_analysis_service.Store.Locking.{
  HasVersion, update_incident-HasVersion, Updated, update_incident-Updated, update_incident_twice,
}
use route_analysis_service.Tests.Fixtures.{sorting, city, nodes, edges, incident}

abbrev reported : Incident ℕ
reported = incident "i" IncidentStatus.draft (pos 1) false

abbrev history : List (Call ℕ)
history =
    Call.added_dataset city
    ∷ Call.imported_graph "city" nodes edges
    ∷ Call.added_incident reported
    ∷ []

-- A store with one dataset and one incident.
abbrev city_store : Store ℕ
city_store = record {
  datasets = ("city", city) ∷ [];
  graphs = [];
  incidents = ("city", ("i", reported) ∷ []) ∷ [];
  jobs = [];
}

calls-IsConsistent_example : IsConsistent (calls (new_store {F = ℕ}) history)
calls-IsConsistent_example = calls-IsConsistent history

update_incident-Updated_example :
    Updated city_store (update_incident city_store reported (pos 1)).0 reported (pos 1)
unfolding update_incident validate_incident updated_incident window_valid lookup
update_incident-Updated_example = update_incident-Updated city_store reported (pos 1) refl

update_incident_twice_example :
    update_incident
      (update_incident city_store reported (pos 1)).0
      (incident "i" IncidentStatus.active (pos 2) true)
      (pos 1)
    ≡ ((update_incident city_store reported (pos 1)).0, err conflict)
unfolding update_incident validate_incident updated_incident window_valid lookup
update_incident_twice_example =
    update_incident_twice city_store reported (incident "i" IncidentStatus.active (pos 2) true)
      (pos 1) (ground arith) refl refl refl refl

update_incident-HasVersion_example : ((update_incident city_store reported (pos 4)).1 ≡ ok tt) ↔ (
    (validate_incident reported ≡ ok tt) × HasVersion (incident_at city_store "city" "i") (pos 4))
update_incident-HasVersion_example = update_incident-HasVersion city_store reported (pos 4)

abbrev revoked_store : Store ℕ
revoked_store = record {
  datasets = ("city", city) ∷ [];
  graphs = [];
  incidents = ("city", ("i", incident "i" IncidentStatus.revoked (pos 1) false) ∷ []) ∷ [];
  jobs = [];
}

activate_incident-Activated_example :
    let (u, r) = activate_incident city_store revoked_store "i" "city" (pos 1) in
    (r ≡ ok tt) ↔ Activated city_store revoked_store u "i" "city" (pos 1)
activate_incident-Activated_example =
    activate_incident-Activated city_store revoked_store "i" "city" (pos 1)

-- A revoked incident is activated, whatever the listing said of it.
reactivated : (activate_incident city_store revoked_store "i" "city" (pos 1)).1 ≡ ok tt
unfolding activate_incident activate_first list_incidents stable_sort lookup insert_stable
    update_incident updated_incident replaced validate_incident window_valid
reactivated = refl
