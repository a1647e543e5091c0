-- ===== src/Service/Returns.antt =====
-- The analyses of jobs in internal/application/service.go return, whatever the parameters.
use route_analysis_service.Prelude.{
  ℕ, suc, pos, ◌+◌, ◌*◌, ◌≤◌, String, List, [], ◌∷◌, length, not, ◌||◌, ◌==◌, Map, Option, some,
  SortSlice, Heap, contains, Bool-cases, inl, inr, ◌≡◌, refl,
}
use route_analysis_service.Model.Float.{Float64, IsFinite, IsOrdered}
use route_analysis_service.Model.Time.{Time, is_zero}
use route_analysis_service.Model.Types.{
  parameter, RouteRequest, RouteResult, AnalysisJob, JobType, Any,
}
use route_analysis_service.Model.Validation.{validate_request, mode_valid, is_nil}
use route_analysis_service.Model.Error.{Result, ok, err}
use route_analysis_service.Routing.Snapshot.{Snapshot}
use route_analysis_service.Routing.Search.{route, reachable}
use route_analysis_service.Routing.Progress.{targets}
use route_analysis_service.Routing.Answer.{route-IsAnswer}
use route_analysis_service.Routing.Isochrone.{reachable-IsWithin}
use route_analysis_service.Service.Parameters.{strings, number, pair_key}
use route_analysis_service.Service.Analysis.{
  Reads, drive, matrix_entry, pair_entry, matrix_row, matrix_rows, matrix_result, analyze_matrix,
  isochrone_result, analyze_isochrone, analyze_as, analyze,
}

-- A computation on fuel has a result.
abbrev pub Returns : {A : Type 0} → Option A → Type 0
Returns {A} o = (a : A) × (o ≡ some a)

module _ {F : Type 0} ⦃fl : Float64 F⦄ ⦃slice : SortSlice⦄ ⦃heap : Heap⦄ (fin : IsFinite fl)
    (ordered : IsOrdered fl) (view : Snapshot F) (fuel : ℕ)
    (h : 2 + 2 * (fin.bound * length (targets view.outgoing)) ≤ fuel) where
  open fl use {decimal, le}

  route-Returns : (r : RouteRequest F) → Returns (route fuel view r)
  unfolding route
  route-Returns r = on (validate_request r) refl
    where
      on : (v : Result (Unit {0})) → validate_request r ≡ v → Returns (route fuel view r)
      on (err e) q = rw (q, route) (err e, refl)
      on (ok u) q = elim (Bool-cases (contains r.from view.nodes)) [
        | inr missing ↦ rw (q, missing, route) (_, refl)
        | inl from ↦ elim (Bool-cases (contains r.to view.nodes)) [
          | inr missing ↦ rw (q, from, missing, route) (_, refl)
          | inl to ↦
              let (a, returns, answer) = route-IsAnswer fin view r fuel h q from to in (a, returns)
        ]
      ]

  reachable-Returns : (r : RouteRequest F) (budget : F) → Returns (reachable fuel view r budget)
  unfolding reachable
  reachable-Returns r budget =
      elim (Bool-cases
        (r.dataset_id == "" || r.from == "" || not (mode_valid r.mode) || is_zero r.departure)) [
          | inl refused ↦ rw (refused, reachable) (_, refl)
          | inr accepted ↦ elim (Bool-cases (le budget (decimal (pos 0) 0))) [
            | inl none_left ↦ rw (accepted, none_left, reachable) (_, refl)
            | inr positive ↦
                let (m, returns, within) =
                  reachable-IsWithin view r budget fin ordered fuel h accepted positive in
                (ok m, returns)
          ]
        ]

  pair-Returns :
      (dataset from to : String) (at : Time) (m : Map F)
      → Returns (pair_entry fuel view dataset from to at m)
  unfolding pair_entry matrix_entry
  pair-Returns dataset from to at m = elim (Bool-cases (from == to)) [
    | inl same ↦ rw (same, pair_entry) (_, refl)
    | inr other ↦
        let (a, returns) = route-Returns (drive dataset from to at) in
        rw (other, returns, pair_entry) (entered a)
  ]
    where
      entered : (a : Result (RouteResult F)) → Returns (matrix_entry (some a) (pair_key from to) m)
      entered (ok x) = (_, refl)
      entered (err e) = (_, refl)

  row-Returns :
      (reads : Reads) (dataset from : String) (tos : List String) (acc : Map F × ℕ)
      → Returns (matrix_row fuel view reads dataset from tos acc)
  unfolding matrix_row
  row-Returns reads dataset from [] acc = (_, refl)
  row-Returns reads dataset from (to ∷ tos) (m, n) = elim (Bool-cases (reads.expired n)) [
    | inl late ↦ rw (late, matrix_row) (_, refl)
    | inr in_time ↦
        let (m', returns) = pair-Returns dataset from to (reads.now n) m in
        rw (in_time, returns, matrix_row) (row-Returns reads dataset from tos (m', suc n))
  ]

  rows-Returns :
      (reads : Reads) (dataset : String) (froms tos : List String) (acc : Map F × ℕ)
      → Returns (matrix_rows fuel view reads dataset froms tos acc)
  unfolding matrix_rows
  rows-Returns reads dataset [] tos acc = (_, refl)
  rows-Returns reads dataset (from ∷ froms) tos acc =
      let (r, returns) = row-Returns reads dataset from tos acc in
      rw (returns, matrix_rows) (next r (λ acc'. rows-Returns reads dataset froms tos acc'))
    where
      next :
          (r : Result (Map F × ℕ))
          → ((acc' : Map F × ℕ) → Returns (matrix_rows fuel view reads dataset froms tos acc'))
          → Returns (elim r [
            | err e ↦ some (err e)
            | ok acc' ↦ matrix_rows fuel view reads dataset froms tos acc'
          ])
      next (err e) go = (_, refl)
      next (ok acc') go = go acc'

  matrix-Returns :
      (origins destinations : List String) (o : Option (Result (Map F × ℕ)))
      → Returns o
      → Returns (matrix_result origins destinations o)
  unfolding matrix_result
  matrix-Returns origins destinations o (ok acc, q) = rw (q, matrix_result) (_, refl)
  matrix-Returns origins destinations o (err e, q) = rw (q, matrix_result) (_, refl)

  isochrone-Returns :
      (budget : F) (o : Option (Result (Map F))) → Returns o → Returns (isochrone_result budget o)
  unfolding isochrone_result
  isochrone-Returns budget o (ok m, q) = rw (q, isochrone_result) (_, refl)
  isochrone-Returns budget o (err e, q) = rw (q, isochrone_result) (_, refl)

  analyze_matrix-Returns :
      (reads : Reads) (dataset : String) (origins destinations : List String)
      → Returns (analyze_matrix fuel view reads dataset origins destinations)
  unfolding analyze_matrix
  analyze_matrix-Returns reads dataset origins destinations =
      elim (Bool-cases (is_nil origins || is_nil destinations)) [
        | inl missing ↦ rw (missing, analyze_matrix) (_, refl)
        | inr given ↦
            rw (given, analyze_matrix)
              (matrix-Returns origins destinations _
                (rows-Returns reads dataset origins destinations ([], 0)))
      ]

  analyze_isochrone-Returns :
      (reads : Reads) (dataset : String) (from : Any F) (budget : F)
      → Returns (analyze_isochrone fuel view reads dataset from budget)
  unfolding analyze_isochrone
  analyze_isochrone-Returns reads dataset Any.null budget = (_, refl)
  analyze_isochrone-Returns reads dataset (Any.float x) budget = (_, refl)
  analyze_isochrone-Returns reads dataset (Any.int n) budget = (_, refl)
  analyze_isochrone-Returns reads dataset (Any.text from) budget =
      isochrone-Returns budget _
        (reachable-Returns (drive dataset from "placeholder" (reads.now 0)) budget)
  analyze_isochrone-Returns reads dataset (Any.time at) budget = (_, refl)
  analyze_isochrone-Returns reads dataset (Any.list items) budget = (_, refl)
  analyze_isochrone-Returns reads dataset (Any.scores m) budget = (_, refl)

  pub analyze-Returns :
      (reads : Reads) (job : AnalysisJob F) → Returns (analyze fuel view reads job)
  unfolding analyze analyze_as
  analyze-Returns reads job = by_type job.job_type
    where
      by_type : (kind : JobType) → Returns (analyze_as kind fuel view reads job)
      by_type JobType.centrality = (_, refl)
      by_type JobType.isochrone =
          analyze_isochrone-Returns reads job.dataset_id (parameter "from" job.parameters)
            (number (parameter "budgetSeconds" job.parameters) (decimal (pos 600) 0))
      by_type JobType.od_matrix =
          analyze_matrix-Returns reads job.dataset_id (strings (parameter "origins" job.parameters))
            (strings (parameter "destinations" job.parameters))
      by_type (JobType.other kind) = (_, refl)
