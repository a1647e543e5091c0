-- ===== src/Routing/Choices.antt =====
-- The answers of `KRoutes` in internal/domain/routing/engine.go.
use route_analysis_service.Prelude.{
  ℕ, zero, suc, ◌+◌, ◌*◌, ◌≤◌, String, List, [], ◌∷◌, ◌++◌, length, length-append, Bool, true,
  false, ◌||◌, ℤ, pos, negsuc, pos_part, ◌-ℤ◌, ◌≤ℤ◌, ltb_ℤ, Map, insert, contains, flag,
  flag-insert, Option, none, some, SortSlice, Heap, All, All-prefix, perm-append_left, ◌≡◌, refl,
  sym, subst, arith,
}
use mathlib.Core.List.{append_assoc}
use text.Mathlib.TextEquality.{eq_iff}
use native.Mathlib.Nat.{mul-le-mul_left}
use route_analysis_service.Model.Float.{Float64, IsFinite}
use route_analysis_service.Model.Types.{Node, Edge, Incident, RouteRequest, RouteResult, RouteLeg}
use route_analysis_service.Model.Validation.{validate_request}
use route_analysis_service.Model.Error.{Result, ok, err, no_route}
use route_analysis_service.Routing.Snapshot.{Snapshot, new_snapshot}
use route_analysis_service.Routing.Search.{route}
use route_analysis_service.Routing.Alternatives.{
  path_key, without_edge, admit, deviate, by_seconds, more_routes, k_routes,
}
use route_analysis_service.Routing.Progress.{targets}
use route_analysis_service.Routing.Answer.{IsAnswer, route-IsAnswer}
use route_analysis_service.Routing.Size.{
  targets-without_edge, targets-new_snapshot, edges-new_snapshot,
}
use route_analysis_service.Routing.Deviation.{without_edge-Itinerary}
use route_analysis_service.Routing.Pool.{
  HasUniquePaths, HasUniquePaths-prefix, Pooled, perm-Pooled, admit-Pooled,
}

first_known :
    {F : Type 0} (first : RouteResult F)
    → flag (path_key first) (insert (path_key first) true []) ≡ true
first_known first = ground (
  arith,
  flag-insert (path_key first) (path_key first) [],
  eq_iff (path_key first) (path_key first),
)

at_most :
    (k : ℤ) (n : ℕ)
    → (ltb_ℤ k (pos 1) || ltb_ℤ (pos 10) k) ≡ false
    → n ≤ pos_part (k -ℤ pos 1)
    → pos (suc n) ≤ℤ k
unfolding ◌-ℤ◌
at_most (pos m) n allowed few = ground (arith, allowed, few)
at_most (negsuc m) n allowed few = ground (arith, allowed, few)

module _ {F : Type 0} ⦃fl : Float64 F⦄ ⦃slice : SortSlice⦄ ⦃heap : Heap⦄ (fin : IsFinite fl)
    (nodes : List (Node F)) (edges : List (Edge F)) (incidents : List (Incident F)) (version : ℤ)
    (r : RouteRequest F) where
  -- Enough fuel for any search in a graph with these edges.
  abbrev pub enough_for : ℕ
  enough_for = 2 + 2 * (fin.bound * length edges)

  abbrev built : Snapshot F
  built = new_snapshot nodes edges incidents version

  less_fuel : (n : ℕ) → n ≤ length edges → 2 + 2 * (fin.bound * n) ≤ enough_for
  less_fuel n h = omega (arith, mul-le-mul_left fin.bound h)

  -- An itinerary of the snapshot for the request.
  abbrev pub IsRoute : RouteResult F → Type 0
  IsRoute x = IsAnswer fin built r (ok x)

  -- The answers to a request for `k` routes: those of `Route` first.
  abbrev pub AreRoutes : ℕ → ℤ → Result (List (RouteResult F)) → Type 0
  AreRoutes fuel k (err e) = (route fuel built r ≡ some (err e)) × (e ≡ no_route)
  AreRoutes fuel k (ok []) = ⊥
  AreRoutes fuel k (ok (first ∷ rest)) =
      (route fuel built r ≡ some (ok first))
      × All IsRoute (first ∷ rest)
      × HasUniquePaths (first ∷ rest)
      × (pos (length (first ∷ rest)) ≤ℤ k)

  module _ (fuel : ℕ) (h : enough_for ≤ fuel) (valid : validate_request r ≡ ok tt)
      (from : contains r.from built.nodes ≡ true) (to : contains r.to built.nodes ≡ true) where
    widened :
        (id : String) (a : Result (RouteResult F))
        → IsAnswer fin (without_edge built id) r a
        → (x : RouteResult F) → a ≡ ok x
        → IsRoute x
    unfolding without_edge
    widened id a answer x q =
        let (way, departs, pinned) = subst (IsAnswer fin (without_edge built id) r) q answer in
        (without_edge-Itinerary nodes edges incidents version id r way, departs, pinned)

    searched :
        (id : String)
        → (a : Result (RouteResult F)) × (route fuel (without_edge built id) r ≡ some a)
          × ((x : RouteResult F) → a ≡ ok x → IsRoute x)
    unfolding without_edge
    searched id =
        let fewer = less_fuel (length (targets (without_edge built id).outgoing)) (
          omega (
            arith,
            targets-without_edge built id,
            edges-new_snapshot nodes edges incidents version,
          )) in
        let (a, returns, answer) =
          route-IsAnswer fin (without_edge built id) r fuel (omega (arith, fewer, h)) valid from
            to in
        (a, returns, widened id a answer)

    deviate-Pooled :
        (legs : List (RouteLeg F)) (seen : Map Bool) (results candidates : List (RouteResult F))
        → Pooled IsRoute seen (results ++ candidates)
        → (seen' : Map Bool) × (candidates' : List (RouteResult F)) × (deviate fuel built r legs
              (seen, candidates)
            ≡ some (seen', candidates'))
          × Pooled IsRoute seen' (results ++ candidates')
    unfolding deviate
    deviate-Pooled [] seen results candidates k = (seen, candidates, refl, k)
    deviate-Pooled (leg ∷ legs) seen results candidates k =
        let (a, returns, good) = searched leg.edge_id in
        rw (returns, deviate)
          (deviate-Pooled legs (admit (seen, candidates) a).0 results (admit (seen, candidates) a).1
            (admit-Pooled seen results candidates a good k))

    -- What the loop makes of the first route.
    abbrev Extends : ℕ → RouteResult F → Option (List (RouteResult F)) → Type 0
    Extends most first o =
        (rest : List (RouteResult F)) × (o ≡ some (first ∷ rest))
        × All IsRoute (first ∷ rest)
        × HasUniquePaths (first ∷ rest)
        × (length rest ≤ most)

    more_routes-Extends :
        (rounds : ℕ) (first : RouteResult F) (others : List (RouteResult F))
        (previous : RouteResult F) (seen : Map Bool) (candidates : List (RouteResult F))
        → Pooled IsRoute seen (first ∷ others ++ candidates)
        → Extends
            (length others + rounds)
            first
            (more_routes fuel built r rounds (first ∷ others) previous (seen, candidates))
    unfolding more_routes
    more_routes-Extends zero first others previous seen candidates k = (
      others,
      refl,
      All-prefix IsRoute (first ∷ others) candidates k.good,
      HasUniquePaths-prefix (first ∷ others) candidates k.unique,
      omega arith,
    )
    more_routes-Extends (suc rounds) first others previous seen candidates k =
        let (seen', found, returns, k') =
          deviate-Pooled previous.legs seen (first ∷ others) candidates k in
        rw (returns, more_routes)
          (choose (more_routes-Extends rounds first) seen'
            (slice.sort (RouteResult F) by_seconds found)
            (perm-Pooled
              (perm-append_left (first ∷ others) (slice.sort-perm (RouteResult F) by_seconds found))
              k'))
      where
        choose :
            ((others : List (RouteResult F)) (previous : RouteResult F) (seen : Map Bool)
                (candidates : List (RouteResult F))
              → Pooled IsRoute seen (first ∷ others ++ candidates)
              → Extends
                  (length others + rounds)
                  first
                  (more_routes fuel built r rounds (first ∷ others) previous (seen, candidates)))
            → (seen' : Map Bool) (sorted : List (RouteResult F))
            → Pooled IsRoute seen' (first ∷ others ++ sorted)
            → Extends (length others + suc rounds) first (elim sorted [
              | [] ↦ some (first ∷ others)
              | best ∷ rest ↦
                  more_routes fuel built r rounds (first ∷ others ++ best ∷ []) best (seen', rest)
            ])
        choose go seen' [] k = (
          others,
          refl,
          All-prefix IsRoute (first ∷ others) [] k.good,
          HasUniquePaths-prefix (first ∷ others) [] k.unique,
          omega arith,
        )
        choose go seen' (best ∷ rest) k =
            let (more, returns, good, unique, few) = go (others ++ best ∷ []) best seen' rest (
              subst (λ l. Pooled IsRoute seen' (first ∷ l))
                (sym (append_assoc others (best ∷ []) rest)) k) in
            (more, returns, good, unique, omega (arith, few, length-append others (best ∷ [])))

    -- For floats of which there are finitely many and with fuel enough for the edges given, `KRoutes` on a
    -- new snapshot returns for every valid request between two nodes of it and every `k` from 1 to 10.
    -- It fails with `ErrNoRoute` if `Route` does; otherwise it answers with at most `k` routes, the
    -- first of them the one of `Route`, whose keys all differ and each of which is an itinerary of
    -- the snapshot for the request, with its arrival and its cost.
    pub k_routes-AreRoutes :
        (k : ℤ)
        → (ltb_ℤ k (pos 1) || ltb_ℤ (pos 10) k) ≡ false
        → (a : Result (List (RouteResult F))) × (k_routes fuel built r k ≡ some a)
          × AreRoutes fuel k a
    unfolding k_routes
    k_routes-AreRoutes k allowed =
        let (a, returns, answer) =
          route-IsAnswer fin built r fuel
            (omega (
              arith,
              less_fuel (length (targets built.outgoing))
                  (omega (arith, targets-new_snapshot nodes edges incidents version)),
              h,
            ))
            valid from to in
        rw (allowed, returns, k_routes) (from_first a returns answer)
      where
        from_first :
            (a : Result (RouteResult F))
            → route fuel built r ≡ some a
            → IsAnswer fin built r a
            → (b : Result (List (RouteResult F))) × ((elim a [
              | err e ↦ some (err e)
              | ok first ↦
                  elim (more_routes fuel built r
                    (pos_part (k -ℤ pos 1))
                    (first ∷ [])
                    first
                    (insert (path_key first) true [], [])) [
                      | none ↦ none
                      | some results ↦ some (ok results)
                    ]
            ])
                ≡ some b)
              × AreRoutes fuel k b
        from_first (err e) returns answer = (err e, refl, (returns, answer))
        from_first (ok first) returns answer =
            let (rest, found, good, unique, few) =
              more_routes-Extends (pos_part (k -ℤ pos 1)) first [] first
                (insert (path_key first) true []) []
                (record {
                  good = (answer, tt);
                  unique = (tt, tt);
                  known = (first_known first, tt);
                }) in
            rw found (
              ok (first ∷ rest),
              refl,
              (returns, good, unique, at_most k (length rest) allowed (omega (arith, few))),
            )
