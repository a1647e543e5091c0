-- ===== src/Tests/Reports.antt =====
-- Reports of internal/domain/analytics/validation.go.
use route_analysis_service.Prelude.{ℕ, pos, ◌&&◌, all, lookup, insert, ◌≡◌, refl}
use route_analysis_service.Model.Float.{small_float}
use route_analysis_service.Model.Validation.{validate_dataset, is_blank}
use route_analysis_service.Store.Defs.{Store, new_store, create_dataset, created_dataset, put_graph}
use route_analysis_service.Analytics.Validation.{validate_graph}
use route_analysis_service.Analytics.Acceptance.{is_ok, measured, validate_graph-put_graph}
use route_analysis_service.Tests.Fixtures.{city, nodes, edges}

abbrev stored_city : Store ℕ
stored_city = (create_dataset new_store city).0

validate_graph-put_graph_example :
    (validate_graph "city" nodes edges (pos 5)).valid
    ≡ (is_ok (put_graph stored_city "city" nodes edges).1 && all measured edges)
unfolding lookup create_dataset created_dataset validate_dataset is_blank new_store insert
validate_graph-put_graph_example =
    validate_graph-put_graph stored_city "city" nodes edges (pos 5) refl (refl, (refl, (refl, tt)))
      (refl, (refl, (refl, tt)))
