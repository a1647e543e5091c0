-- ===== src/Tests/Caches.antt =====
-- Calls on the cache of internal/infrastructure/cache/ttl.go.
use route_analysis_service.Prelude.{ℕ, pos, lookup, ◌≡◌, arith}
use route_analysis_service.Cache.Ttl.{
  Ttl, new_ttl, get, put, prune, unexpired, HasUniqueKeys, put-HasUniqueKeys, get-prune,
}

-- One entry that expires at 10, and one that expires at 90.
abbrev cache : Ttl ℕ
cache = put (put new_ttl "short" 1 (pos 10)) "long" 2 (pos 90)

cache-HasUniqueKeys : HasUniqueKeys cache.entries
unfolding new_ttl
cache-HasUniqueKeys =
    put-HasUniqueKeys (put new_ttl "short" 1 (pos 10)) "long" 2 (pos 90)
      (put-HasUniqueKeys new_ttl "short" 1 (pos 10) tt)

get-prune_example :
    (lookup "short" (prune cache (λ key. pos 50)).0.entries
      ≡ unexpired (pos 50) (lookup "short" cache.entries))
    × (get (prune cache (λ key. pos 50)).0 "short" (pos 60) ≡ get cache "short" (pos 60))
get-prune_example =
    get-prune cache (λ key. pos 50) "short" (pos 60) cache-HasUniqueKeys (ground arith)
