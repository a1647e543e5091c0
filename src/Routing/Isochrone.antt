-- ===== src/Routing/Isochrone.antt =====
-- The answers of `Reachable` in internal/domain/routing/engine.go: the search ends, and every node
-- that it reports lies within the budget.
use route_analysis_service.Prelude.{
  ℕ, ◌+◌, ◌*◌, ◌≤◌, String, List, [], ◌∷◌, ◌++◌, length, Bool, true, false, not, ◌||◌, ◌==◌,
  if◌then◌else◌, pos, Map, Option, none, some, SortSlice, Heap, done, more, Advances, run_correct,
  All, All-perm, All-insert, All-Elem, Elem, inl, inr, ◌≡◌, refl, arith, Bool-cases, Option-cases,
}
use mathlib.Core.List.{Permᴰ}
use route_analysis_service.Model.Float.{Float64, IsFinite, IsOrdered}
use route_analysis_service.Model.Time.{Time, is_zero}
use route_analysis_service.Model.Types.{Edge, EdgeCost, RouteRequest, RouteLeg}
use route_analysis_service.Model.Validation.{mode_valid}
use route_analysis_service.Model.Access.{effective_cost}
use route_analysis_service.Model.Error.{ok}
use route_analysis_service.Routing.Snapshot.{Snapshot, slice_of}
use route_analysis_service.Routing.State.{State, root, label, leg_of, by_estimate}
use route_analysis_service.Routing.Search.{
  Frontier, stale, no_better, reached, extend, extend_all, spread, initial, origin, reachable,
}
use route_analysis_service.Routing.Itinerary.{Itinerary, depart, ride}
use route_analysis_service.Routing.Progress.{
  targets, slice_of-targets, measure, extend_all-measure, pop-measure, initial-measure,
}

module _ {F : Type 0} ⦃fl : Float64 F⦄ ⦃slice : SortSlice⦄ ⦃heap : Heap⦄ (s : Snapshot F)
    (r : RouteRequest F) (budget : F) where
  open fl use {decimal, add, lt, le}

  -- There is a way to a node at a time and a cost.
  abbrev pub HasWay : String → Time → F → Type 0
  HasWay node at cost = (legs : List (RouteLeg F)) × Itinerary s r node at cost legs

  abbrev pub Reaches : State F → Type 0
  Reaches st = HasWay (label st).node (label st).arrival (label st).cost

  -- A reported node: its cost does not exceed the budget, and there is a way to it for that cost.
  abbrev pub IsWithin : String × F → Type 0
  IsWithin e = (lt budget e.1 ≡ false) × ((at : Time) × HasWay e.0 at e.1)

  abbrev pub IsSound : Frontier F → Type 0
  IsSound f = All Reaches f.0 × All IsWithin f.1

  extend-IsSound :
      (current : State F) (f : Frontier F) (e : Edge F) (c : EdgeCost F)
      → Reaches current
      → Elem e (slice_of (label current).node s.outgoing)
      → effective_cost e s.incidents r (label current).arrival ≡ some c
      → IsSound f
      → IsSound (extend budget current f e c)
  unfolding extend
  extend-IsSound current (queue, result) e c way out cost sound =
      elim (Bool-cases (
        lt budget (add (label current).cost c.seconds)
        || no_better result e.to (add (label current).cost c.seconds))) [
          | inl refused ↦ rw (refused, extend) sound
          | inr taken ↦
              let there : Reaches
                  (root (reached (label current) e c (add (label current).cost c.seconds))) =
                (way.0 ++ leg_of c ∷ [], ride e c way.1 out cost) in
              rw (taken, extend)
                (
                  All-perm Reaches (heap.push-perm (State F) by_estimate _ queue) (there, sound.0),
                  All-insert IsWithin e.to _ result (ground arith, (_, there)) sound.1,
                )
        ]

  pub extend_all-IsSound :
      (current : State F) (f : Frontier F) (es : List (Edge F))
      → Reaches current
      → All (λ e. Elem e (slice_of (label current).node s.outgoing)) es
      → IsSound f
      → IsSound (extend_all s r budget current f es)
  unfolding extend_all
  extend_all-IsSound current f [] way out sound = sound
  extend_all-IsSound current f (e ∷ es) way out sound =
      elim (Option-cases (effective_cost e s.incidents r (label current).arrival)) [
        | inl barred ↦ rw (barred, extend_all) (extend_all-IsSound current f es way out.1 sound)
        | inr (c, cost) ↦
            rw (cost, extend_all)
              (extend_all-IsSound current (extend budget current f e c) es way out.1
                (extend-IsSound current f e c way out.0 cost sound))
      ]

  module _ (fin : IsFinite fl) where
    abbrev ks : List String
    ks = targets s.outgoing

    spread-Advances :
        (f : Frontier F)
        → IsSound f
        → Advances IsSound (All IsWithin) (measure fin ks) (measure fin ks f) (spread s r budget f)
    unfolding spread
    spread-Advances (queue, result) sound = by_pop (heap.pop (State F) by_estimate queue) refl
      where
        grow :
            (current : State F) (rest : List (State F)) (b : Bool)
            → Permᴰ queue (current ∷ rest)
            → Advances IsSound (All IsWithin) (measure fin ks) (measure fin ks (queue, result)) (
                if b
                then more (rest, result)
                else more (
                    extend_all s r budget current
                      (rest, result)
                      (slice_of (label current).node s.outgoing)))
        grow current rest true p = (
          ((All-perm Reaches p sound.0).1, sound.1),
          pop-measure fin ks queue result current rest p,
        )
        grow current rest false p =
            let split = All-perm Reaches p sound.0 in
            let node = (label current).node in
            let out = slice_of node s.outgoing in
            (
              extend_all-IsSound current (rest, result) out split.0 (All-Elem out)
                  (split.1, sound.1),
              omega (
                arith,
                extend_all-measure fin ks s r budget current (rest, result) out
                    (slice_of-targets node s.outgoing),
                pop-measure fin ks queue result current rest p,
              ),
            )

        by_pop :
            (o : Option (State F × List (State F)))
            → heap.pop (State F) by_estimate queue ≡ o
            → Advances IsSound
                (All IsWithin)
                (measure fin ks)
                (measure fin ks (queue, result))
                (elim o [
                  | none ↦ done result
                  | some (current, rest) ↦
                      if lt budget (label current).cost || stale result (label current)
                      then more (rest, result)
                      else more (
                          extend_all s r budget current
                            (rest, result)
                            (slice_of (label current).node s.outgoing))
                ])
        by_pop none e = sound.1
        by_pop (some (current, rest)) e =
            grow current rest (lt budget (label current).cost || stale result (label current))
              (heap.pop-perm (State F) by_estimate queue current rest e)

    -- For ordered floats of which there are finitely many and with enough fuel, `Reachable`
    -- returns a map for a request that it accepts and a positive budget, and every node of the
    -- map can be reached for the cost that stands there, which is not above the budget.
    pub reachable-IsWithin :
        IsOrdered fl
        → (fuel : ℕ) → 2 + 2 * (fin.bound * length ks) ≤ fuel
        → (r.dataset_id == "" || r.from == "" || not (mode_valid r.mode) || is_zero r.departure)
          ≡ false
        → le budget (decimal (pos 0) 0) ≡ false
        → (m : Map F) × (reachable fuel s r budget ≡ some (ok m)) × All IsWithin m
    unfolding reachable
    reachable-IsWithin ordered fuel h accepted positive =
        let start : Reaches (root (origin r)) = ([], depart) in
        let free : lt budget (decimal (pos 0) 0) ≡ false = ground (
          arith,
          ordered.le-eq-not-lt budget (decimal (pos 0) 0),
          ordered.lt_asymm (decimal (pos 0) 0) budget,
        ) in
        let (m, returns, within) =
          run_correct IsSound (All IsWithin) (measure fin ks) (spread s r budget) spread-Advances
            fuel (initial r) (omega (arith, initial-measure fin ks (root (origin r)) (initial r).1))
            ((start, tt), ((free, (r.departure, start)), tt)) in
        (m, rw (accepted, positive, returns, reachable), within)
