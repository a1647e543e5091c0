-- ===== src/Routing/Alternatives.antt =====
-- internal/domain/routing/engine.go: `KRoutes`, the alternative routes. Each search in it runs on the
-- fuel given; `none` means that one of them ran out.
use route_analysis_service.Prelude.{
  ℕ, zero, suc, String, str_append, List, [], ◌∷◌, ◌++◌, Bool, true, ◌||◌, ◌-ℤ◌, if◌then◌else◌, ℤ,
  pos, pos_part, ltb_ℤ, Map, insert, delete, flag, values, Option, none, some, SortSlice, Heap,
}
use route_analysis_service.Model.Float.{Float64}
use route_analysis_service.Model.Types.{RouteRequest, RouteLeg, RouteResult}
use route_analysis_service.Model.Error.{Result, ok, err, message}
use route_analysis_service.Routing.Snapshot.{Snapshot, group_by_origin}
use route_analysis_service.Routing.Search.{route}

module _ {F : Type 0} where
  unfoldable pub key_loop : String → List (RouteLeg F) → String
  key_loop out [] = out
  key_loop out (leg ∷ legs) = key_loop (str_append out (str_append leg.edge_id "/")) legs

  unfoldable pub path_key : RouteResult F → String
  unfolding key_loop
  path_key r = key_loop "" r.legs

  -- `modified`: the snapshot without one edge. Its outgoing lists are not sorted again.
  unfoldable pub without_edge : Snapshot F → String → Snapshot F
  unfolding group_by_origin
  without_edge s id =
      let copied = delete id s.edges in
      record s { edges = copied; outgoing = group_by_origin [] (values copied) }

  -- What the search without an edge adds to the pool.
  unfoldable pub admit :
      Map Bool × List (RouteResult F) → Result (RouteResult F) → Map Bool × List (RouteResult F)
  admit (seen, candidates) (err e) = (seen, candidates)
  admit (seen, candidates) (ok found) =
      if flag (path_key found) seen
      then (seen, candidates)
      else (insert (path_key found) true seen, candidates ++ found ∷ [])

  module _ ⦃fl : Float64 F⦄ ⦃slice : SortSlice⦄ ⦃heap : Heap⦄ where
    open fl use {lt}

    -- The loop over the legs of the previous route.
    unfoldable pub deviate :
        ℕ
        → Snapshot F
        → RouteRequest F
        → List (RouteLeg F)
        → Map Bool × List (RouteResult F)
        → Option (Map Bool × List (RouteResult F))
    unfolding admit without_edge
    deviate fuel s r [] pool = some pool
    deviate fuel s r (leg ∷ legs) pool = elim (route fuel (without_edge s leg.edge_id) r) [
      | none ↦ none
      | some found ↦ deviate fuel s r legs (admit pool found)
    ]

    abbrev pub by_seconds : RouteResult F → RouteResult F → Bool
    by_seconds a b = lt a.total_seconds b.total_seconds

    -- The loop for `rounds` more results; `previous` is the last one so far.
    unfoldable pub more_routes :
        ℕ
        → Snapshot F
        → RouteRequest F
        → ℕ
        → List (RouteResult F)
        → RouteResult F
        → Map Bool × List (RouteResult F)
        → Option (List (RouteResult F))
    unfolding deviate
    more_routes fuel s r zero results previous pool = some results
    more_routes fuel s r (suc rounds) results previous pool =
        elim (deviate fuel s r previous.legs pool) [
          | none ↦ none
          | some (seen, candidates) ↦ elim (slice.sort (RouteResult F) by_seconds candidates) [
            | [] ↦ some results
            | best ∷ rest ↦ more_routes fuel s r rounds (results ++ best ∷ []) best (seen, rest)
          ]
        ]

    unfoldable pub k_routes :
        ℕ → Snapshot F → RouteRequest F → ℤ → Option (Result (List (RouteResult F)))
    unfolding more_routes
    k_routes fuel s r k =
        if ltb_ℤ k (pos 1) || ltb_ℤ (pos 10) k
        then some (err (message "k must be between 1 and 10"))
        else elim (route fuel s r) [
          | none ↦ none
          | some (err e) ↦ some (err e)
          | some (ok first) ↦
              elim (more_routes fuel s r (pos_part (k -ℤ pos 1)) (first ∷ []) first
                (insert (path_key first) true [], [])) [
                  | none ↦ none
                  | some results ↦ some (ok results)
                ]
        ]
