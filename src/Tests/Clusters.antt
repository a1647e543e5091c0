-- ===== src/Tests/Clusters.antt =====
-- Clusters of internal/domain/geocode/cluster.go, and counts of internal/domain/analytics/heatmap.go.
use route_analysis_service.Prelude.{ℕ, [], ◌∷◌, Map, pos, lookup, ◌≡◌, refl}
use route_analysis_service.Model.Float.{small_float}
use route_analysis_service.Model.Types.{Point}
use route_analysis_service.Geocode.Cluster.{Cluster}
use route_analysis_service.Analytics.Windows.{WindowCounter, count_events, prune_events}
use route_analysis_service.Analytics.Pruned.{count_events-prune_events}
use route_analysis_service.Tests.Fixtures.{sorting}

abbrev town : Map (Point ℕ)
town =
    ("a", record { lat = 5; lon = 5 })
    ∷ ("b", record { lat = 5; lon = 6 })
    ∷ ("c", record { lat = 80; lon = 80 })
    ∷ []

abbrev counter : WindowCounter
counter = record { events = ("a", pos 3 ∷ pos 8 ∷ []) ∷ ("b", pos 2 ∷ []) ∷ [] }

-- From 1 to 9, of which 5 and later remains.
count_events-prune_events_example :
    count_events (prune_events counter (pos 5)).0 "a" (pos 1) (pos 9)
    ≡ count_events counter "a" (pos 5) (pos 9)
unfolding lookup
count_events-prune_events_example =
    count_events-prune_events counter (pos 5) "a" (pos 1) (pos 9) (refl, (refl, tt))
