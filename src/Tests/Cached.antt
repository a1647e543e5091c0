-- ===== src/Tests/Cached.antt =====
-- Cached routes of internal/application/route_service.go.
use route_analysis_service.Prelude.{ℕ, String, [], pos, true, some, lookup, insert, ◌≡◌, refl}
use route_analysis_service.Model.Float.{small_float}
use route_analysis_service.Model.Time.{Time}
use route_analysis_service.Model.Types.{RouteRequest, RouteResult}
use route_analysis_service.Model.Error.{ok}
use route_analysis_service.Store.Defs.{new_store}
use route_analysis_service.Cache.Lru.{
  Lru, get, get_at, put, put_at, evict, move_to_front, front, value_at, value_of,
}
use route_analysis_service.Cache.Recency.{put-IsLru}
use route_analysis_service.Cache.Uses.{new-IsLru}
use route_analysis_service.Service.Cached.{
  route_cache_key, cached_or, cached_route, mode_text, cached_route-again,
}
use route_analysis_service.Tests.Fixtures.{sorting, queueing, request}

abbrev at_noon : Time → String
at_noon t = "12:00"

abbrev kept : RouteResult ℕ
kept = record {
  dataset_id = "city";
  snapshot_version = pos 1;
  algorithm = "astar";
  departure = pos 7;
  arrival = pos 14;
  total_seconds = 7;
  total_meters = 20;
  total_toll_cents = pos 9;
  legs = [];
  explanation = [];
}

abbrev empty : Lru (RouteResult ℕ)
empty = record { capacity = pos 512; items = []; list = record { order = []; next = 0 } }

abbrev filled : Lru (RouteResult ℕ)
filled = put empty (route_cache_key at_noon request) kept

-- The same way, but for a request that avoids tolls.
abbrev without_tolls : RouteRequest ℕ
without_tolls = record request { avoid_tolls = true }

cached_route-again_example :
    cached_route at_noon 0 new_store new_store []
      (get filled (route_cache_key at_noon request)).0
      without_tolls
    ≡ some (
      (get
          (get filled (route_cache_key at_noon request)).0
          (route_cache_key at_noon without_tolls)).0,
      ok kept,
    )
unfolding cached_route cached_or get get_at put put_at evict move_to_front front value_at value_of
    lookup insert route_cache_key mode_text
cached_route-again_example =
    cached_route-again at_noon 511 0 0 new_store new_store new_store new_store [] [] filled
      (get filled (route_cache_key at_noon request)).0 request kept true request.max_slope
      (put-IsLru 511 empty (route_cache_key at_noon request) kept (new-IsLru 511)).0 refl
