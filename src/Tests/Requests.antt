-- ===== src/Tests/Requests.antt =====
-- Requests to internal/transport/httpapi.
use route_analysis_service.Prelude.{
  IsInt64, subst, ◌⊎◌, arith, insert, any, ◌+64◌, wrap64, ◌+ℤ◌, ℕ, String, List, [], ◌∷◌, false,
  ◌==◌, if◌then◌else◌, ℤ, pos, Option, none, some, ◌≡◌, refl, lookup, stable_sort, insert_stable,
}
use route_analysis_service.Model.Float.{small_float}
use route_analysis_service.Model.Time.{Time, window_valid}
use route_analysis_service.Model.Types.{IncidentStatus}
use route_analysis_service.Model.Validation.{
  validate_dataset, validate_node, validate_edge, validate_incident, is_blank, point_valid,
  mode_valid,
}
use route_analysis_service.Model.Error.{Error, ok, err, message}
use route_analysis_service.Store.Defs.{
  create_dataset, created_dataset, put_graph, imported, create_incident, created_incident,
  update_incident, updated_incident, replaced, list_incidents, load_node, load_nodes, load_edge,
  load_edges, next_version, Store, new_store, get_dataset,
}
use route_analysis_service.Service.Incidents.{first_named, activate_incident, activate_first}
use route_analysis_service.Transport.Responses.{
  is_conflict, write_json, with_body, respond, is_not_found, write_error,
}
use route_analysis_service.Transport.Handlers.{
  handle_activate_incident, handle_create_incident, handle_import_graph, handle_resolve_expired,
  handle_get_dataset, handle_list_incidents, handle_list_jobs, handle_conflicts,
}
use route_analysis_service.Transport.Activation.{handle_activate_incident_twice}
use route_analysis_service.Store.History.{Call, calls, step, calls-IsConsistent}
use route_analysis_service.Tests.Fixtures.{city, sorting, nodes, edges, incident}

abbrev error_text : Error → String
error_text e = "error"

abbrev parse_int : String → Option ℤ
parse_int s = if s == "1" then some (pos 1) else none

abbrev parse_time : String → Option Time
parse_time s = none

abbrev history : List (Call ℕ)
history =
    Call.added_dataset city
    ∷ Call.imported_graph "city" nodes edges
    ∷ Call.added_incident (incident "i" IncidentStatus.draft (pos 1) false)
    ∷ []

abbrev filled : Store ℕ
filled = calls new_store history

-- The statuses of an import into a dataset that is not there, of a body that is cut off, of an activation with the
-- version 1 of the new incident, and of one without a version.
answers :
    ((handle_import_graph error_text filled "town"
        (ok (record { nodes = nodes; edges = edges }))).1.status
      ≡ 404)
    × ((handle_create_incident error_text filled "j"
          (pos 1)
          (err (message "unexpected EOF"))).1.status
        ≡ 400)
    × ((handle_activate_incident error_text parse_int filled filled "i" "city" "1").1.status ≡ 200)
    × ((handle_activate_incident error_text parse_int filled filled "i" "city" "").1.status ≡ 428)
unfolding new_store handle_import_graph handle_create_incident handle_activate_incident with_body
    respond write_error write_json is_not_found is_conflict activate_incident activate_first
    create_dataset created_dataset put_graph imported create_incident created_incident
    update_incident updated_incident replaced list_incidents lookup insert stable_sort insert_stable
    load_node load_nodes load_edge load_edges next_version validate_dataset validate_node
    validate_edge validate_incident window_valid is_blank point_valid mode_valid any ◌+64◌ wrap64
    ◌+ℤ◌ calls step
answers = (refl, refl, refl, refl)

version_of_header : (v : ℤ) → parse_int "1" ≡ some v → IsInt64 v
version_of_header v q =
    let same : pos 1 ≡ v = ground (arith, q) in subst IsInt64 same (omega arith, omega arith)

handle_activate_incident_twice_example :
    let u = (handle_activate_incident error_text parse_int filled filled "i" "city" "1").0 in
    let (w, answer) = handle_activate_incident error_text parse_int filled u "i" "city" "1" in
    (w ≡ u)
    × ((answer.status ≡ 409)
        ⊎ ((answer.status ≡ 400) × (first_named "i" (list_incidents filled "city") ≡ none)))
handle_activate_incident_twice_example =
    handle_activate_incident_twice error_text parse_int filled filled filled "i" "city" "1"
      version_of_header (calls-IsConsistent history) (calls-IsConsistent history) answers.2

expired_at :
    (handle_resolve_expired error_text parse_time
      (λ n. [])
      (new_store {F = ℕ})
      "city"
      "now"
      (pos 1)).1.status
    ≡ 400
unfolding handle_resolve_expired write_error
expired_at = refl

missing_dataset : (handle_get_dataset {F = ℕ} error_text new_store "city").status ≡ 404
unfolding handle_get_dataset get_dataset new_store lookup respond is_not_found write_error
missing_dataset = refl

no_dataset_given :
    ((handle_list_incidents {F = ℕ} error_text new_store "").status ≡ 400)
    × ((handle_list_jobs {F = ℕ} error_text new_store "").status ≡ 400)
    × ((handle_conflicts {F = ℕ} error_text parse_time new_store "city" "noon" (pos 1)).status
        ≡ 400)
unfolding handle_list_incidents handle_list_jobs handle_conflicts write_error
no_dataset_given = (refl, refl, refl)
