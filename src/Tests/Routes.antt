-- ===== src/Tests/Routes.antt =====
-- Searches of internal/domain/routing/engine.go, and the costs of edges that they rest on.
use route_analysis_service.Prelude.{
  any, String, ℕ, List, [], ◌∷◌, filter, ◌==◌, true, pos, Map, Option, some, is_some, stable_sort,
  insert_stable, lookup, insert, run, All, ◌≡◌, refl, arith,
}
use mathlib.Core.List.{Permᴰ}
use route_analysis_service.Model.Float.{
  small_float, small_float-IsFinite, small_float-IsOrdered, small_float-IsMagnitude,
}
use route_analysis_service.Model.Types.{Mode, Incident, IncidentStatus, RouteResult}
use route_analysis_service.Model.Validation.{point_valid, validate_request, mode_valid, is_blank}
use route_analysis_service.Model.Access.{
  supports, mode_eq, first_rule, apply_incidents, effective_cost, barred,
}
use route_analysis_service.Model.Error.{Result, ok}
use route_analysis_service.Network.Edges.{allowed, allowed-effective_cost, seconds}
use route_analysis_service.Network.Paths.{Ranks, rank_paths, rank_paths-Ranks}
use route_analysis_service.Routing.Snapshot.{
  nearest, Snapshot, new_snapshot, slice_of, distance_meters,
}
use route_analysis_service.Routing.Closest.{IsClosest, nearest-IsClosest}
use route_analysis_service.Routing.Search.{
  route, reachable, visit, relax_all, relax, no_better, stale,
}
use route_analysis_service.Routing.State.{heuristic, result_of, location_of, top_speed}
use route_analysis_service.Routing.Progress.{targets}
use route_analysis_service.Routing.Answer.{IsAnswer, route-IsAnswer}
use route_analysis_service.Routing.Isochrone.{IsWithin, reachable-IsWithin}
use route_analysis_service.Routing.Index.{new_snapshot-outgoing}
use route_analysis_service.Tests.Fixtures.{sorting, queueing, edge, incident, nodes, edges, request}

abbrev city_map : Snapshot ℕ
city_map = new_snapshot nodes edges [] (pos 1)

abbrev closing : List (Incident ℕ)
closing = incident "i" IncidentStatus.active (pos 1) true ∷ []

abbrev seconds_of : Option (Result (RouteResult ℕ)) → ℕ
seconds_of (some (ok r)) = r.total_seconds
seconds_of _ = 0

-- The way over `b` is found.
two_legs : seconds_of (route 20 city_map request) ≡ 7
unfolding route validate_request mode_valid new_snapshot lookup insert stable_sort insert_stable run
    visit relax_all relax no_better stale effective_cost heuristic result_of location_of top_speed
    distance_meters barred supports any mode_eq first_rule apply_incidents filter
two_legs = refl

route-IsAnswer_example :
    (a : Result (RouteResult ℕ)) × (route 9000 city_map request ≡ some a)
    × IsAnswer small_float-IsFinite city_map request a
unfolding validate_request mode_valid is_blank new_snapshot lookup insert stable_sort insert_stable
    targets
route-IsAnswer_example =
    route-IsAnswer small_float-IsFinite city_map request 9000 (omega arith) refl refl refl

reachable-IsWithin_example :
    (m : Map ℕ) × (reachable 9000 city_map request 5 ≡ some (ok m))
    × All (IsWithin city_map request 5) m
unfolding mode_valid new_snapshot lookup insert stable_sort insert_stable targets
reachable-IsWithin_example =
    reachable-IsWithin city_map request 5 small_float-IsFinite small_float-IsOrdered 9000
      (omega arith) refl refl

allowed-effective_cost_example :
    allowed closing (edge "ab" "a" "b" 3) request (pos 9)
    ≡ is_some (effective_cost (edge "ab" "a" "b" 3) closing request (pos 9))
allowed-effective_cost_example =
    allowed-effective_cost small_float-IsMagnitude (edge "ab" "a" "b" 3) closing request (pos 9)

new_snapshot-outgoing_example :
    Permᴰ
      (filter (λ e. e.from == "a") edges)
      (slice_of "a" (new_snapshot nodes edges closing (pos 1)).outgoing)
new_snapshot-outgoing_example = new_snapshot-outgoing nodes edges closing (pos 1) "a"

abbrev ranked : String → ℕ → RouteResult ℕ
ranked name seconds = record {
  dataset_id = name;
  snapshot_version = pos 1;
  algorithm = "";
  departure = pos 7;
  arrival = pos 9;
  total_seconds = seconds;
  total_meters = 0;
  total_toll_cents = pos 0;
  legs = [];
  explanation = [];
}

rank_paths-Ranks_example :
    Ranks
      (ranked "slow" 9 ∷ ranked "fast" 7 ∷ [])
      (rank_paths (ranked "slow" 9 ∷ ranked "fast" 7 ∷ []) (pos 1))
      (pos 1)
rank_paths-Ranks_example =
    rank_paths-Ranks small_float-IsOrdered (ranked "slow" 9 ∷ ranked "fast" 7 ∷ []) (pos 1) refl

nearest-IsClosest_example :
    IsClosest city_map
      (record { lat = 6; lon = 5 })
      Mode.walk
      (nearest city_map (record { lat = 6; lon = 5 }) Mode.walk)
unfolding new_snapshot lookup insert point_valid
nearest-IsClosest_example =
    nearest-IsClosest city_map (record { lat = 6; lon = 5 }) Mode.walk small_float-IsOrdered
      (refl, (refl, (refl, tt))) refl
