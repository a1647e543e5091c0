-- ===== src/Routing/Search.antt =====
-- internal/domain/routing/engine.go: `Route` and `Reachable`. Each search runs on fuel, one unit
-- for each state taken from the heap; `none` means that the fuel ran out.
use route_analysis_service.Prelude.{
  ℕ, String, str_append, List, [], ◌∷◌, ◌==◌, Bool, false, not, ◌||◌, if◌then◌else◌, pos, Map,
  lookup, insert, contains, Option, none, some, SortSlice, Heap, Outcome, done, more, run,
}
use mathlib.Core.Option
use route_analysis_service.Model.Float.{Float64}
use route_analysis_service.Model.Time.{add as add_time, is_zero}
use route_analysis_service.Model.Types.{Edge, EdgeCost, RouteRequest, RouteResult}
use route_analysis_service.Model.Validation.{validate_request, mode_valid}
use route_analysis_service.Model.Access.{effective_cost}
use route_analysis_service.Model.Error.{Result, ok, err, message, no_route, wrapped}
use route_analysis_service.Routing.Snapshot.{Snapshot, slice_of}
use route_analysis_service.Routing.State.{
  Label, State, root, step, label, duration, by_estimate, heuristic, location_of, result_of,
}

-- The heap, and the best cost known of each node: `best`, or `result` of `Reachable`.
abbrev pub Frontier : Type 0 → Type 0
Frontier F = List (State F) × Map F

module _ {F : Type 0} ⦃fl : Float64 F⦄ ⦃slice : SortSlice⦄ ⦃heap : Heap⦄ where
  open fl use {decimal, add, lt, le}

  -- `known := best[node]; cost > known + 0.000001`, where a missing node reads as zero.
  unfoldable pub stale : Map F → Label F → Bool
  stale best l =
      lt
        (add (elim (lookup l.node best) [ none ↦ decimal (pos 0) 0 | some c ↦ c ])
          (decimal (pos 1) 6))
        l.cost

  -- `old, seen := best[to]; seen && candidate >= old`
  unfoldable pub no_better : Map F → String → F → Bool
  no_better best to candidate = elim (lookup to best) [ none ↦ false | some old ↦ le old candidate ]

  -- The label that an edge leads to.
  abbrev pub reached : Label F → Edge F → EdgeCost F → F → Label F
  reached l e cost estimate = record {
    node = e.to;
    cost = add l.cost cost.seconds;
    estimate = estimate;
    arrival = add_time l.arrival (duration cost.seconds);
  }

  -- The body of the loop over the edges in `Route`, for an edge that may be used.
  unfoldable pub relax :
      Snapshot F → RouteRequest F → State F → Frontier F → Edge F → EdgeCost F → Frontier F
  unfolding no_better
  relax s r current (queue, best) e cost =
      let candidate = add (label current).cost cost.seconds in
      let estimate = add candidate (heuristic (location_of s e.to) (location_of s r.to) r.mode) in
      if no_better best e.to candidate then (queue, best) else (
        heap.push (State F) by_estimate
            (step (reached (label current) e cost estimate) current cost) queue,
        insert e.to candidate best,
      )

  unfoldable pub relax_all :
      Snapshot F → RouteRequest F → State F → Frontier F → List (Edge F) → Frontier F
  relax_all s r current f [] = f
  relax_all s r current f (e ∷ es) =
      relax_all s r current
        (elim (effective_cost e s.incidents r (label current).arrival) [
          | none ↦ f
          | some cost ↦ relax s r current f e cost
        ])
        es

  -- One round of the loop of `Route`.
  unfoldable pub visit :
      Snapshot F → RouteRequest F → Frontier F → Outcome (Frontier F) (Result (RouteResult F))
  visit s r (queue, best) = elim (heap.pop (State F) by_estimate queue) [
    | none ↦ done (err no_route)
    | some (current, rest) ↦
        if stale best (label current)
        then more (rest, best)
        else if (label current).node == r.to
        then done (ok (result_of s r current))
        else more (relax_all s r current (rest, best) (slice_of (label current).node s.outgoing))
  ]

  abbrev pub origin : RouteRequest F → Label F
  origin r = record {
    node = r.from;
    cost = decimal (pos 0) 0;
    estimate = decimal (pos 0) 0;
    arrival = r.departure;
  }

  abbrev pub initial : RouteRequest F → Frontier F
  initial r = (root (origin r) ∷ [], (r.from, decimal (pos 0) 0) ∷ [])

  unfoldable pub route : ℕ → Snapshot F → RouteRequest F → Option (Result (RouteResult F))
  route fuel s r = elim (validate_request r) [
    | err e ↦ some (err e)
    | ok _ ↦
        if contains r.from s.nodes
        then (if contains r.to s.nodes
            then run fuel (visit s r) (initial r)
            else some (err (wrapped (str_append "destination " r.to) no_route)))
        else some (err (wrapped (str_append "origin " r.from) no_route))
  ]

  -- The body of the loop over the edges in `Reachable`.
  unfoldable pub extend : F → State F → Frontier F → Edge F → EdgeCost F → Frontier F
  unfolding no_better
  extend budget current (queue, result) e cost =
      let next = add (label current).cost cost.seconds in
      if lt budget next || no_better result e.to next then (queue, result) else (
        heap.push (State F) by_estimate (root (reached (label current) e cost next)) queue,
        insert e.to next result,
      )

  unfoldable pub extend_all :
      Snapshot F → RouteRequest F → F → State F → Frontier F → List (Edge F) → Frontier F
  extend_all s r budget current f [] = f
  extend_all s r budget current f (e ∷ es) =
      extend_all s r budget current
        (elim (effective_cost e s.incidents r (label current).arrival) [
          | none ↦ f
          | some cost ↦ extend budget current f e cost
        ])
        es

  -- One round of the loop of `Reachable`.
  unfoldable pub spread :
      Snapshot F → RouteRequest F → F → Frontier F → Outcome (Frontier F) (Map F)
  spread s r budget (queue, result) = elim (heap.pop (State F) by_estimate queue) [
    | none ↦ done result
    | some (current, rest) ↦
        if lt budget (label current).cost || stale result (label current)
        then more (rest, result)
        else more (
            extend_all s r budget current (rest, result) (slice_of (label current).node s.outgoing))
  ]

  unfoldable pub reachable : ℕ → Snapshot F → RouteRequest F → F → Option (Result (Map F))
  reachable fuel s r budget =
      if r.dataset_id == "" || r.from == "" || not (mode_valid r.mode) || is_zero r.departure
      then some (err (message "datasetId, from, valid mode and departure are required"))
      else if le budget (decimal (pos 0) 0)
      then some (err (message "budget must be positive"))
      else Option.map ok (run fuel (spread s r budget) (initial r))
