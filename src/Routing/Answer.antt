-- ===== src/Routing/Answer.antt =====
-- The answers of `Route` in internal/domain/routing/engine.go: the search ends, and what it
-- returns is an itinerary of the snapshot.
use route_analysis_service.Prelude.{
  ℕ, ◌+◌, ◌*◌, ◌≤◌, String, List, ◌∷◌, length, Bool, true, false, ◌==◌, if◌then◌else◌, Option, none,
  some, SortSlice, Heap, Outcome, done, more, run, Advances, run_correct, All, All-perm, All-Elem,
  contains, ◌≡◌, refl, subst, arith, ≡-of_eq,
}
use mathlib.Core.List.{Permᴰ}
use route_analysis_service.Model.Float.{Float64, IsFinite}
use route_analysis_service.Model.Types.{RouteRequest, RouteResult}
use route_analysis_service.Model.Validation.{validate_request}
use route_analysis_service.Model.Error.{Result, ok, err, no_route}
use route_analysis_service.Routing.Snapshot.{Snapshot, slice_of}
use route_analysis_service.Routing.State.{State, root, label, by_estimate, legs_to, result_of}
use route_analysis_service.Routing.Search.{
  Frontier, stale, relax_all, visit, initial, origin, route,
}
use route_analysis_service.Routing.Itinerary.{Itinerary, depart, Spells, relax_all-Spells}
use route_analysis_service.Routing.Progress.{
  targets, slice_of-targets, measure, relax_all-measure, pop-measure, initial-measure,
}

module _ {F : Type 0} ⦃fl : Float64 F⦄ ⦃slice : SortSlice⦄ ⦃heap : Heap⦄ (fin : IsFinite fl)
    (s : Snapshot F) (r : RouteRequest F) where
  -- A result is an itinerary to the destination with the totals of its end, and leaves at the
  -- request's departure; the only error of the search is that there is no route.
  abbrev pub IsAnswer : Result (RouteResult F) → Type 0
  IsAnswer (ok res) =
      Itinerary s r r.to res.arrival res.total_seconds res.legs
      × (res.departure ≡ r.departure)
      × (res.snapshot_version ≡ s.version)
  IsAnswer (err e) = e ≡ no_route

  result_of-IsAnswer :
      (end : State F) → Spells s r end → (label end).node ≡ r.to → IsAnswer (ok (result_of s r end))
  unfolding result_of
  result_of-IsAnswer end spells at = (
    subst (λ n. Itinerary s r n (label end).arrival (label end).cost (legs_to end)) at spells,
    refl,
    refl,
  )

  abbrev ks : List String
  ks = targets s.outgoing

  visit-Advances :
      (f : Frontier F)
      → All (Spells s r) f.0
      → Advances
          (λ g. All (Spells s r) g.0)
          IsAnswer
          (measure fin ks)
          (measure fin ks f)
          (visit s r f)
  unfolding visit
  visit-Advances (queue, best) all = by_pop (heap.pop (State F) by_estimate queue) refl
    where
      goes_on : Frontier F → Outcome (Frontier F) (Result (RouteResult F)) → Type 0
      goes_on f o =
          Advances (λ g. All (Spells s r) g.0) IsAnswer (measure fin ks) (measure fin ks f) o

      settle :
          (current : State F) (rest : List (State F)) (b : Bool)
          → ((label current).node == r.to) ≡ b
          → Permᴰ queue (current ∷ rest)
          → goes_on
              (queue, best)
              (if b
                then done (ok (result_of s r current))
                else more
                    (relax_all s r current (rest, best) (slice_of (label current).node s.outgoing)))
      settle current rest true at p =
          result_of-IsAnswer current (All-perm (Spells s r) p all).0 (≡-of_eq _ _ at)
      settle current rest false at p =
          let split = All-perm (Spells s r) p all in
          let node = (label current).node in
          let out = slice_of node s.outgoing in
          (
            relax_all-Spells s r current (rest, best) out split.0 (All-Elem out) split.1,
            omega (
              arith,
              relax_all-measure fin ks s r current (rest, best) out
                  (slice_of-targets node s.outgoing),
              pop-measure fin ks queue best current rest p,
            ),
          )

      skip_or :
          (current : State F) (rest : List (State F))
          (o : Outcome (Frontier F) (Result (RouteResult F))) (b : Bool)
          → Permᴰ queue (current ∷ rest)
          → goes_on (queue, best) o
          → goes_on (queue, best) (if b then more (rest, best) else o)
      skip_or current rest o true p h =
          ((All-perm (Spells s r) p all).1, pop-measure fin ks queue best current rest p)
      skip_or current rest o false p h = h

      by_pop :
          (o : Option (State F × List (State F)))
          → heap.pop (State F) by_estimate queue ≡ o
          → goes_on
              (queue, best)
              (elim o [
                | none ↦ done (err no_route)
                | some (current, rest) ↦
                    if stale best (label current)
                    then more (rest, best)
                    else if (label current).node == r.to
                    then done (ok (result_of s r current))
                    else more (
                        relax_all s r current
                          (rest, best)
                          (slice_of (label current).node s.outgoing))
              ])
      by_pop none e = refl
      by_pop (some (current, rest)) e =
          let p = heap.pop-perm (State F) by_estimate queue current rest e in
          skip_or current rest _ (stale best (label current)) p
            (settle current rest ((label current).node == r.to) refl p)

  -- Enough fuel for any request: it counts the edges of the snapshot.
  abbrev pub enough : ℕ
  enough = 2 + 2 * (fin.bound * length ks)

  search-IsAnswer :
      (fuel : ℕ)
      → enough ≤ fuel
      → (a : Result (RouteResult F)) × (run fuel (visit s r) (initial r) ≡ some a) × IsAnswer a
  unfolding legs_to
  search-IsAnswer fuel h =
      run_correct (λ g. All (Spells s r) g.0) IsAnswer (measure fin ks) (visit s r) visit-Advances
        fuel (initial r) (omega (arith, initial-measure fin ks (root (origin r)) (initial r).1))
        (depart, tt)

  -- For floats of which there are finitely many and with enough fuel, `Route` returns for every
  -- valid request between two nodes of the snapshot. The answer is `ErrNoRoute`, or an itinerary
  -- of the snapshot from the request's origin and departure to its destination, whose arrival
  -- and cost are those of the result, which also has the request's departure and the snapshot's
  -- version.
  pub route-IsAnswer :
      (fuel : ℕ)
      → enough ≤ fuel
      → validate_request r ≡ ok tt
      → contains r.from s.nodes ≡ true
      → contains r.to s.nodes ≡ true
      → (a : Result (RouteResult F)) × (route fuel s r ≡ some a) × IsAnswer a
  unfolding route
  route-IsAnswer fuel h valid from to = rw (valid, from, to, route) (search-IsAnswer fuel h)
