-- ===== src/Tests/Traffic.antt =====
-- Traffic observations of internal/domain/analytics/network.go.
use route_analysis_service.Prelude.{ℕ, String, List, [], ◌∷◌, ℤ, pos, ◌≡◌}
use route_analysis_service.Model.Float.{small_float}
use route_analysis_service.Analytics.Traffic.{EdgeObservation, new_traffic_index, observed, latest}
use route_analysis_service.Analytics.Recorded.{
  IsLatest, kept_count, last, of_edge, record_all, latest-record_all,
}

abbrev seen : String → ℤ → ℕ → EdgeObservation ℕ
seen edge at speed = record {
  edge_id = edge;
  at = at;
  speed_kph = speed;
  occupancy = 1;
  source = "";
}

-- The third has no edge.
abbrev observations : List (EdgeObservation ℕ)
observations =
    seen "ab" (pos 5) 30 ∷ seen "bc" (pos 6) 40 ∷ seen "" (pos 7) 50 ∷ seen "ab" (pos 9) 60 ∷ []

latest-record_all_example :
    (observed (record_all (new_traffic_index (pos 200)) observations) "ab"
      ≡ last (kept_count (pos 200)) (of_edge "ab" observations))
    × IsLatest
        (pos 8)
        (last (kept_count (pos 200)) (of_edge "ab" observations))
        (latest (record_all (new_traffic_index (pos 200)) observations) "ab" (pos 8))
latest-record_all_example = latest-record_all (pos 200) observations "ab" (pos 8)
