-- ===== src/Service/Analysis.antt =====
-- internal/application/service.go: the searches over the store, and the analyses of jobs. The clock and
-- the deadline of a job are functions of how many times the loop has read them.
use route_analysis_service.Prelude.{
  ℕ, suc, String, str_append, List, [], ◌∷◌, length, Bool, true, false, ◌||◌, ◌==◌, ℤ, pos, Map,
  insert, Option, none, some, SortSlice, Heap,
}
use route_analysis_service.Model.Float.{Float64}
use route_analysis_service.Model.Time.{Time}
use route_analysis_service.Model.Types.{
  parameter, Mode, RouteRequest, RouteResult, AnalysisJob, JobType, Any,
}
use route_analysis_service.Model.Validation.{is_nil}
use route_analysis_service.Model.Error.{Result, ok, err, message, ◌>>=◌}
use route_analysis_service.Service.Parameters.{strings, text_items, pair_key, number}
use route_analysis_service.Routing.Snapshot.{Snapshot, new_snapshot, degree_centrality}
use route_analysis_service.Routing.Search.{route, reachable}
use route_analysis_service.Routing.Alternatives.{k_routes}
use route_analysis_service.Store.Defs.{Store, graph, list_incidents}

-- What the worker reads while it analyses a job: the time at the n-th search, and whether the
-- deadline has passed before it.
pub record Reads : Type 0 where
  pub now : ℕ → Time
  pub expired : ℕ → Bool

module _ {F : Type 0} ⦃fl : Float64 F⦄ where
  open fl use {decimal, of_int, mul, div, round}

  -- `math.Round(x*100) / 100`
  unfoldable pub cents : F → F
  cents x = div (round (mul x (decimal (pos 100) 0))) (decimal (pos 100) 0)

  -- The request of a search by car.
  unfoldable pub drive : String → String → String → Time → RouteRequest F
  drive dataset from to departure = record {
    dataset_id = dataset;
    from = from;
    to = to;
    mode = Mode.drive;
    departure = departure;
    vehicle_class = "";
    avoid_tolls = false;
    max_slope = decimal (pos 0) 0;
  }

  module _ ⦃slice : SortSlice⦄ where
    -- `Graph` reads the first store and `ListIncidents` the second: another call may come between.
    unfoldable pub snapshot : Store F → Store F → String → Result (Snapshot F)
    snapshot s t id = graph s id >>= λ (nodes, edges, version).
        ok (new_snapshot nodes edges (list_incidents t id) version)

  module _ ⦃slice : SortSlice⦄ ⦃heap : Heap⦄ where
    unfoldable pub find_route :
        ℕ → Store F → Store F → RouteRequest F → Option (Result (RouteResult F))
    find_route fuel s t r = elim (snapshot s t r.dataset_id) [
      | err e ↦ some (err e)
      | ok view ↦ route fuel view r
    ]

    unfoldable pub find_routes :
        ℕ → Store F → Store F → RouteRequest F → ℤ → Option (Result (List (RouteResult F)))
    find_routes fuel s t r k = elim (snapshot s t r.dataset_id) [
      | err e ↦ some (err e)
      | ok view ↦ k_routes fuel view r k
    ]

    unfoldable pub find_reachable :
        ℕ → Store F → Store F → RouteRequest F → F → Option (Result (Map F))
    find_reachable fuel s t r budget = elim (snapshot s t r.dataset_id) [
      | err e ↦ some (err e)
      | ok view ↦ reachable fuel view r budget
    ]

    -- One entry of the matrix, which stays out if there is no route.
    unfoldable pub matrix_entry : Option (Result (RouteResult F)) → String → Map F → Option (Map F)
    unfolding cents
    matrix_entry none key m = none
    matrix_entry (some (err e)) key m = some m
    matrix_entry (some (ok r)) key m = some (insert key (cents r.total_seconds) m)

    unfoldable pub pair_entry :
        ℕ → Snapshot F → String → String → String → Time → Map F → Option (Map F)
    unfolding matrix_entry drive pair_key
    pair_entry fuel view dataset from to at m = elim (from == to) [
      | true ↦ some (insert (pair_key from to) (decimal (pos 0) 0) m)
      | false ↦ matrix_entry (route fuel view (drive dataset from to at)) (pair_key from to) m
    ]

    -- The loop over the destinations of one origin.
    unfoldable pub matrix_row :
        ℕ
        → Snapshot F
        → Reads
        → String
        → String
        → List String
        → Map F × ℕ
        → Option (Result (Map F × ℕ))
    matrix_row fuel view reads dataset from [] acc = some (ok acc)
    matrix_row fuel view reads dataset from (to ∷ tos) (m, n) = elim (reads.expired n) [
      | true ↦ some (err (message "context deadline exceeded"))
      | false ↦ elim (pair_entry fuel view dataset from to (reads.now n) m) [
        | none ↦ none
        | some m' ↦ matrix_row fuel view reads dataset from tos (m', suc n)
      ]
    ]

    unfoldable pub matrix_rows :
        ℕ
        → Snapshot F
        → Reads
        → String
        → List String
        → List String
        → Map F × ℕ
        → Option (Result (Map F × ℕ))
    matrix_rows fuel view reads dataset [] tos acc = some (ok acc)
    matrix_rows fuel view reads dataset (from ∷ froms) tos acc =
        elim (matrix_row fuel view reads dataset from tos acc) [
          | none ↦ none
          | some (err e) ↦ some (err e)
          | some (ok acc') ↦ matrix_rows fuel view reads dataset froms tos acc'
        ]

    unfoldable pub matrix_result :
        List String → List String → Option (Result (Map F × ℕ)) → Option (Result (Map (Any F)))
    matrix_result origins destinations none = none
    matrix_result origins destinations (some (err e)) = some (err e)
    matrix_result origins destinations (some (ok (m, n))) = some (
        ok (
          ("matrix", Any.scores m)
          ∷ ("origins", Any.list (text_items origins))
          ∷ ("destinations", Any.list (text_items destinations))
          ∷ []))

    unfoldable pub analyze_matrix :
        ℕ → Snapshot F → Reads → String → List String → List String → Option (Result (Map (Any F)))
    analyze_matrix fuel view reads dataset origins destinations =
        elim (is_nil origins || is_nil destinations) [
          | true ↦ some (err (message "origins and destinations required"))
          | false ↦
              matrix_result origins destinations
                (matrix_rows fuel view reads dataset origins destinations ([], 0))
        ]

    -- A failed `Reachable` returns no nodes.
    unfoldable pub isochrone_result : F → Option (Result (Map F)) → Option (Result (Map (Any F)))
    isochrone_result budget none = none
    isochrone_result budget (some (err e)) = some (err e)
    isochrone_result budget (some (ok m)) = some (
        ok (
          ("budgetSeconds", Any.float budget)
          ∷ ("reachable", Any.scores m)
          ∷ ("count", Any.int (pos (length m)))
          ∷ []))

    unfoldable pub analyze_isochrone :
        ℕ → Snapshot F → Reads → String → Any F → F → Option (Result (Map (Any F)))
    analyze_isochrone fuel view reads dataset (Any.text from) budget =
        isochrone_result budget
          (reachable fuel view (drive dataset from "placeholder" (reads.now 0)) budget)
    analyze_isochrone fuel view reads dataset _ budget =
        some (err (message "from parameter required"))

    unfoldable pub analyze_centrality : Snapshot F → Map (Any F)
    analyze_centrality view =
        let values = degree_centrality view in
        ("algorithm", Any.text "normalized_degree")
        ∷ ("values", Any.scores values)
        ∷ ("nodeCount", Any.int (pos (length values)))
        ∷ []

    unfoldable pub analyze_as :
        JobType → ℕ → Snapshot F → Reads → AnalysisJob F → Option (Result (Map (Any F)))
    analyze_as JobType.centrality fuel view reads job = some (ok (analyze_centrality view))
    analyze_as JobType.isochrone fuel view reads job =
        analyze_isochrone fuel view reads job.dataset_id (parameter "from" job.parameters)
          (number (parameter "budgetSeconds" job.parameters) (decimal (pos 600) 0))
    analyze_as JobType.od_matrix fuel view reads job =
        analyze_matrix fuel view reads job.dataset_id (strings (parameter "origins" job.parameters))
          (strings (parameter "destinations" job.parameters))
    analyze_as (JobType.other kind) fuel view reads job =
        some (err (message (str_append "unsupported job type " kind)))

    unfoldable pub analyze : ℕ → Snapshot F → Reads → AnalysisJob F → Option (Result (Map (Any F)))
    analyze fuel view reads job = analyze_as job.job_type fuel view reads job
