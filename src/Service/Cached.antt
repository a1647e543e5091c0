-- ===== src/Service/Cached.antt =====
-- internal/application/route_service.go: routes through the cache of the service. The text that
-- `Format` makes of a departure is a parameter.
use route_analysis_service.Prelude.{
  ℕ, suc, List, Bool, String, str_append, take, Map, lookup, Option, none, some, SortSlice, Heap,
  ◌==◌, true, ◌≡◌, refl, sym, ap, ◌∙◌, subst, arith, Option-cases, inl, inr,
}
use text.Mathlib.TextEquality.{eq_iff}
use route_analysis_service.Model.Float.{Float64}
use route_analysis_service.Model.Time.{Time}
use route_analysis_service.Model.Types.{Mode, RouteRequest, RouteResult}
use route_analysis_service.Model.Error.{Result, ok, err}
use route_analysis_service.Store.Defs.{Store}
use route_analysis_service.Cache.Lru.{Lru, get, put}
use route_analysis_service.Cache.Elements.{entries}
use route_analysis_service.Cache.Recency.{
  recent_get, recent_get_at, recent_put, IsLru, get-IsLru, put-IsLru,
}
use route_analysis_service.Cache.Uses.{Use, uses, uses-IsLru}
use route_analysis_service.Service.Analysis.{find_route}

unfoldable pub mode_text : Mode → String
mode_text Mode.walk = "walk"
mode_text Mode.bike = "bike"
mode_text Mode.drive = "drive"
mode_text Mode.transit = "transit"
mode_text (Mode.other m) = m

answer_inj :
    {A B : Type 0} {a b : A} {x y : B}
    → ◌≡◌ {A = Option (A × Result B)} (some (a, ok x)) (some (b, ok y))
    → (a ≡ b) × (x ≡ y)
answer_inj q = (cc, cc)

module _ {V : Type 0} where
  recent_get-answer : (m : Map V) (k : String) → (recent_get m k).1 ≡ lookup k m
  unfolding recent_get recent_get_at
  recent_get-answer m k = elim (Option-cases (lookup k m)) [
    | inl missing ↦ rw missing refl
    | inr (v, found) ↦ rw found refl
  ]

  recent_get-lookup :
      (m : Map V) (k : String) (v : V) → lookup k m ≡ some v → lookup k (recent_get m k).0 ≡ some v
  unfolding recent_get recent_get_at lookup
  recent_get-lookup m k v found =
      let here : (k == k) ≡ true = ground (arith, eq_iff k k) in rw (found, recent_get, here) refl

  recent_put-lookup :
      (room : ℕ) (m : Map V) (k : String) (v : V) → lookup k (recent_put (suc room) m k v) ≡ some v
  unfolding recent_put lookup take
  recent_put-lookup room m k v =
      let here : (k == k) ≡ true = ground (arith, eq_iff k k) in rw here refl

  -- A key that was found is found again, and so is one that was put.
  get-get :
      (room : ℕ) (c : Lru V) (k : String) (v : V)
      → IsLru room c
      → (get c k).1 ≡ some v
      → (get (get c k).0 k).1 ≡ some v
  get-get room c k v l found =
      let (l', view, answer) = get-IsLru room c k l in
      let (l'', view', again) = get-IsLru room (get c k).0 k l' in
      again
      ∙ recent_get-answer (entries (get c k).0.list.order) k
      ∙ ap (lookup k) view
      ∙ recent_get-lookup (entries c.list.order) k v
          (sym (recent_get-answer (entries c.list.order) k) ∙ sym answer ∙ found)

  get-put :
      (room : ℕ) (c : Lru V) (k : String) (v : V) → IsLru room c → (get (put c k v) k).1 ≡ some v
  get-put room c k v l =
      let (l', view) = put-IsLru room c k v l in
      let (l'', view', again) = get-IsLru room (put c k v) k l' in
      again
      ∙ recent_get-answer (entries (put c k v).list.order) k
      ∙ ap (lookup k) view
      ∙ recent_put-lookup room (entries c.list.order) k v

module _ {F : Type 0} (format : Time → String) where
  unfoldable pub route_cache_key : RouteRequest F → String
  unfolding mode_text
  route_cache_key r = str_append r.dataset_id (
      str_append "|" (
        str_append r.from (
          str_append "|" (
            str_append r.to (
              str_append "|" (
                str_append (mode_text r.mode) (
                  str_append "|"
                    (str_append (format r.departure) (str_append "|" r.vehicle_class)))))))))

  -- After the search: a route is put into the cache, an error is not.
  unfoldable pub cache_found :
      Lru (RouteResult F)
      → String
      → Option (Result (RouteResult F))
      → Option (Lru (RouteResult F) × Result (RouteResult F))
  cache_found c key none = none
  cache_found c key (some (err e)) = some (c, err e)
  cache_found c key (some (ok x)) = some (put c key x, ok x)

  module _ ⦃fl : Float64 F⦄ ⦃slice : SortSlice⦄ ⦃heap : Heap⦄ where
    -- With what the cache held for the key. A route that is found is put into the cache after the calls that others
    -- make on it during the search, `between`.
    unfoldable pub cached_or :
        ℕ
        → Store F
        → Store F
        → RouteRequest F
        → List (Use (RouteResult F))
        → Lru (RouteResult F) × Option (RouteResult F)
        → Option (Lru (RouteResult F) × Result (RouteResult F))
    cached_or fuel s t r between (c, some x) = some (c, ok x)
    cached_or fuel s t r between (c, none) =
        cache_found (uses c between).0 (route_cache_key r) (find_route fuel s t r)

    unfoldable pub cached_route :
        ℕ
        → Store F
        → Store F
        → List (Use (RouteResult F))
        → Lru (RouteResult F)
        → RouteRequest F
        → Option (Lru (RouteResult F) × Result (RouteResult F))
    cached_route fuel s t between c r = cached_or fuel s t r between (get c (route_cache_key r))

    -- A cache that holds a route for the key of a request answers with it.
    hit :
        (fuel : ℕ) (s t : Store F) (between : List (Use (RouteResult F))) (c : Lru (RouteResult F))
        (r : RouteRequest F) (x : RouteResult F)
        → (get c (route_cache_key r)).1 ≡ some x
        → cached_route fuel s t between c r ≡ some ((get c (route_cache_key r)).0, ok x)
    unfolding cached_route cached_or
    hit fuel s t between c r x found = rw (found, cached_route) refl

    -- What the cache holds after a call that answered with a route.
    answered :
        (room fuel : ℕ) (s t : Store F) (between : List (Use (RouteResult F)))
        (c c' : Lru (RouteResult F)) (r : RouteRequest F) (x : RouteResult F)
        → IsLru room c
        → cached_route fuel s t between c r ≡ some (c', ok x)
        → (get c' (route_cache_key r)).1 ≡ some x
    unfolding cached_route cached_or cache_found
    answered room fuel s t between c c' r x l done =
        by_cache (get c (route_cache_key r)).1 refl done
      where
        by_search :
            (o : Option (Result (RouteResult F)))
            → cache_found (uses (get c (route_cache_key r)).0 between).0 (route_cache_key r) o
              ≡ some (c', ok x)
            → (get c' (route_cache_key r)).1 ≡ some x
        by_search none q = cc
        by_search (some (err e)) q = cc
        by_search (some (ok y)) q =
            let (same, answer) = answer_inj q in
            subst (λ d. (get d (route_cache_key r)).1 ≡ some x) same
              (get-put room (uses (get c (route_cache_key r)).0 between).0 (route_cache_key r) y (
                  uses-IsLru room (get c (route_cache_key r)).0 between
                    (get-IsLru room c (route_cache_key r) l).0)
                ∙ ap some answer)

        by_cache :
            (o : Option (RouteResult F))
            → (get c (route_cache_key r)).1 ≡ o
            → cached_or fuel s t r between ((get c (route_cache_key r)).0, o) ≡ some (c', ok x)
            → (get c' (route_cache_key r)).1 ≡ some x
        by_cache (some y) found q =
            let (same, answer) = answer_inj q in
            subst (λ d. (get d (route_cache_key r)).1 ≡ some x) same
              (get-get room c (route_cache_key r) y l found ∙ ap some answer)
        by_cache none found q = by_search (find_route fuel s t r) q

    -- Once `CachedRoute` has answered a request with a route, on a cache as `NewLRU` and its methods leave it and whatever
    -- calls others make on the cache during the search, the next request that differs in nothing but what
    -- it says of tolls and slopes gets that same route, whatever the stores hold by then.
    pub cached_route-again :
        (room fuel later : ℕ) (s t u v : Store F) (between meanwhile : List (Use (RouteResult F)))
        (c c' : Lru (RouteResult F)) (r : RouteRequest F) (x : RouteResult F) (avoid_tolls : Bool)
        (max_slope : F)
        → IsLru room c
        → cached_route fuel s t between c r ≡ some (c', ok x)
        → let r' = record r { avoid_tolls = avoid_tolls; max_slope = max_slope } in
          cached_route later u v meanwhile c' r' ≡ some ((get c' (route_cache_key r')).0, ok x)
    unfolding route_cache_key
    cached_route-again room fuel later s t u v between meanwhile c c' r x avoid_tolls max_slope l
          done =
        hit later u v meanwhile c' (record r { avoid_tolls = avoid_tolls; max_slope = max_slope }) x
          (answered room fuel s t between c c' r x l done)
