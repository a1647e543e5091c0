-- ===== src/Tests/Alternatives.antt =====
-- Alternative routes of internal/domain/routing/engine.go.
use route_analysis_service.Prelude.{ℕ, lookup, insert, List, [], pos, some, ◌≡◌, refl, arith}
use route_analysis_service.Model.Float.{small_float, small_float-IsFinite}
use route_analysis_service.Model.Types.{RouteResult}
use route_analysis_service.Model.Validation.{validate_request, mode_valid}
use route_analysis_service.Model.Error.{Result}
use route_analysis_service.Routing.Snapshot.{new_snapshot}
use route_analysis_service.Routing.Alternatives.{k_routes}
use route_analysis_service.Routing.Choices.{AreRoutes, k_routes-AreRoutes}
use route_analysis_service.Tests.Fixtures.{sorting, queueing, nodes, edges, request}

k_routes-AreRoutes_example :
    (a : Result (List (RouteResult ℕ))) × (k_routes 9000
        (new_snapshot nodes edges [] (pos 1))
        request
        (pos 2)
      ≡ some a)
    × AreRoutes small_float-IsFinite nodes edges [] (pos 1) request 9000 (pos 2) a
unfolding validate_request mode_valid lookup new_snapshot insert
k_routes-AreRoutes_example =
    k_routes-AreRoutes small_float-IsFinite nodes edges [] (pos 1) request 9000 (omega arith) refl
      refl refl (pos 2) refl
