-- ===== src/Transport/Handlers.antt =====
-- The handlers of internal/transport/httpapi, on the store, after the reading of the request: bodies are decoded, and
-- queries, headers and the parsing of numbers and times are arguments.
use route_analysis_service.Prelude.{
  String, List, map, ◌==◌, if◌then◌else◌, ℤ, pos, Map, Option, none, some, SortSlice, ℕ, length,
}
use route_analysis_service.Model.Float.{Float64}
use route_analysis_service.Model.Time.{Time}
use route_analysis_service.Model.Types.{
  Dataset, DatasetStatus, Node, Edge, Incident, AnalysisJob, JobType, Any,
}
use route_analysis_service.Model.Error.{Result, ok, err, Error}
use route_analysis_service.Incident.Resolver.{Conflict}
use route_analysis_service.Store.Defs.{
  Store, create_dataset, put_graph, get_dataset, get_job, list_datasets, list_incidents, list_jobs,
}
use route_analysis_service.Store.History.{Call}
use route_analysis_service.Service.Incidents.{
  report_incident, activate_incident, incident_conflicts, resolve_expired_incidents,
}
use route_analysis_service.Service.Jobs.{submit_job}
use route_analysis_service.Transport.Responses.{Answer, write_error, respond, with_body}

pub record DatasetInput : Type 0 where
  pub name : String
  pub description : String
  pub tags : Map String

pub record GraphInput (F : Type 0) : Type 0 where
  pub nodes : List (Node F)
  pub edges : List (Edge F)

pub record JobInput (F : Type 0) : Type 0 where
  pub kind : JobType
  pub dataset_id : String
  pub parameters : Map (Any F)

pub record Imported : Type 0 where
  pub dataset_id : String
  pub nodes : ℕ
  pub edges : ℕ

-- `CreateDataset` of the service: the dataset that it makes of its arguments.
unfoldable pub new_dataset : String → DatasetInput → Time → Dataset
new_dataset fresh input now = record {
  id = fresh;
  name = input.name;
  version = pos 1;
  status = DatasetStatus.draft;
  description = input.description;
  created_at = now;
  updated_at = now;
  tags = input.tags;
}

-- The value with the result of a call that returns an error only.
abbrev pub result_of_call : {A : Type 0} → A → Result (Unit {0}) → Result A
result_of_call v (ok _) = ok v
result_of_call v (err e) = err e

-- A query that must name a dataset.
abbrev pub with_dataset : {A : Type 0} → String → Answer A → Answer A
with_dataset id handle =
    if id == "" then write_error 400 "validation_error" "datasetId is required" else handle

-- The time of a query: none given is the time of the call, and `none` is one that cannot be parsed.
abbrev pub query_time : (String → Option Time) → String → Time → Option Time
query_time parse_time raw now = if raw == "" then some now else parse_time raw

abbrev pub precondition_required : {A : Type 0} → Answer A
precondition_required =
    write_error 428 "precondition_required" "datasetId and numeric If-Match header are required"

module _ {F : Type 0} (error_text : Error → String) where
  unfoldable pub handle_create_dataset :
      Store F → String → Time → Result DatasetInput → Store F × Answer Dataset
  unfolding new_dataset
  handle_create_dataset s fresh now body = with_body error_text s body λ input.
      let d = new_dataset fresh input now in
      let (t, r) = create_dataset s d in (t, respond error_text (result_of_call d r))

  unfoldable pub handle_get_dataset : Store F → String → Answer Dataset
  handle_get_dataset s id = respond error_text (get_dataset s id)

  unfoldable pub handle_get_job : Store F → String → Answer (AnalysisJob F)
  handle_get_job s id = respond error_text (get_job s id)

  module _ ⦃slice : SortSlice⦄ where
    unfoldable pub handle_list_datasets : Store F → Answer (List Dataset)
    handle_list_datasets s = respond error_text (ok (list_datasets s))

    unfoldable pub handle_list_incidents : Store F → String → Answer (List (Incident F))
    handle_list_incidents s id = with_dataset id (respond error_text (ok (list_incidents s id)))

    unfoldable pub handle_list_jobs : Store F → String → Answer (List (AnalysisJob F))
    handle_list_jobs s id = with_dataset id (respond error_text (ok (list_jobs s id)))

module _ {F : Type 0} ⦃fl : Float64 F⦄ (error_text : Error → String) where
  -- The dataset of the path replaces the ones in the body.
  unfoldable pub handle_import_graph :
      Store F → String → Result (GraphInput F) → Store F × Answer Imported
  handle_import_graph s id body = with_body error_text s body λ input.
      let nodes = map (λ (n : Node F). record n { dataset_id = id }) input.nodes in
      let edges = map (λ (e : Edge F). record e { dataset_id = id }) input.edges in
      let (t, r) = put_graph s id nodes edges in
      (
        t,
        respond error_text (
            result_of_call (record { dataset_id = id; nodes = length nodes; edges = length edges })
              r),
      )

  unfoldable pub handle_create_incident :
      Store F → String → Time → Result (Incident F) → Store F × Answer (Incident F)
  handle_create_incident s fresh now body =
      with_body error_text s body
        λ i. let (t, r) = report_incident s fresh now i in (t, respond error_text r)

  -- On the store and the channel of jobs.
  unfoldable pub handle_create_job :
      Store F × List String
      → String
      → Time
      → Result (JobInput F)
      → (Store F × List String) × Answer (AnalysisJob F)
  handle_create_job s fresh now body = with_body error_text s body λ input.
      let (t, r) = submit_job s fresh input.kind input.dataset_id input.parameters now in
      (t, respond error_text r)

  module _ ⦃slice : SortSlice⦄ where
    -- On the store that is listed and the one that is written. The answer is the id and the status "active".
    unfoldable pub handle_activate_incident :
        (String → Option ℤ)
        → Store F
        → Store F
        → String
        → String
        → String
        → Store F × Answer (String × String)
    handle_activate_incident parse_int s t id dataset if_match = elim (parse_int if_match) [
      | none ↦ (t, precondition_required)
      | some version ↦
          if dataset == ""
          then (t, precondition_required)
          else let (u, r) = activate_incident s t id dataset version in
            (u, respond error_text (result_of_call (id, "active") r))
    ]

    unfoldable pub handle_conflicts :
        (String → Option Time) → Store F → String → String → Time → Answer (List Conflict)
    handle_conflicts parse_time s id raw now =
        with_dataset id (elim (query_time parse_time raw now) [
          | none ↦ write_error 400 "validation_error" "at must be RFC3339"
          | some at ↦ respond error_text (ok (incident_conflicts s id at))
        ])

    -- The ids that were resolved; an error after some of them have been stored is one for the whole request. The
    -- calls that come before the n-th update are an argument.
    unfoldable pub handle_resolve_expired :
        (String → Option Time)
        → (ℕ → List (Call F))
        → Store F
        → String
        → String
        → Time
        → Store F × Answer (List String)
    handle_resolve_expired parse_time between s id raw now =
        if id == ""
        then (s, write_error 400 "validation_error" "datasetId is required")
        else elim (query_time parse_time raw now) [
          | none ↦ (s, write_error 400 "validation_error" "at must be RFC3339")
          | some at ↦
              let (t, ids, failed) = resolve_expired_incidents between s id at in
              (t, respond error_text (elim failed [ none ↦ ok ids | some e ↦ err e ]))
        ]
