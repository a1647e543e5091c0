-- ===== src/Routing/Itinerary.antt =====
-- What `Route` and `Reachable` of internal/domain/routing/engine.go answer, as a relation that
-- knows nothing of a search.
use route_analysis_service.Prelude.{
  String, List, [], ◌∷◌, ◌++◌, pos, some, SortSlice, Heap, All, All-perm, Elem, inl, inr, ◌≡◌, sym,
  subst, Bool-cases, Option-cases,
}
use mathlib.Core.List.{reverse-cons}
use route_analysis_service.Model.Float.{Float64}
use route_analysis_service.Model.Time.{Time, add as add_time}
use route_analysis_service.Model.Types.{Edge, EdgeCost, RouteRequest, RouteLeg}
use route_analysis_service.Model.Access.{effective_cost, barred}
use route_analysis_service.Routing.Snapshot.{Snapshot, slice_of}
use route_analysis_service.Routing.State.{
  State, step, label, duration, leg_of, legs_to, legs_back, by_estimate,
}
use route_analysis_service.Routing.Search.{Frontier, relax, relax_all, reached, no_better}

module _ {F : Type 0} ⦃fl : Float64 F⦄ ⦃slice : SortSlice⦄ where
  open fl use {decimal, add, lt, le}

  -- A way from the request's origin, leaving at its departure: at a node, at a time, for a cost,
  -- over some legs. Each leg takes an edge out of the node where the last one ended, at the time
  -- of arrival there, for the cost that the edge has then.
  pub data Itinerary (s : Snapshot F) (r : RouteRequest F)
      : String → Time → F → List (RouteLeg F) → Type 0 where
    depart : Itinerary s r r.from r.departure (decimal (pos 0) 0) []
    ride :
        {node : String} {at : Time} {cost : F} {legs : List (RouteLeg F)} (e : Edge F)
        (c : EdgeCost F)
        → Itinerary s r node at cost legs
        → Elem e (slice_of node s.outgoing)
        → effective_cost e s.incidents r at ≡ some c
        → Itinerary s r e.to
            (add_time at (duration c.seconds))
            (add cost c.seconds)
            (legs ++ leg_of c ∷ [])

  module _ ⦃heap : Heap⦄ (s : Snapshot F) (r : RouteRequest F) where
    -- Each state on the heap of `Route` is the end of the itinerary that its chain spells.
    abbrev pub Spells : State F → Type 0
    Spells st = Itinerary s r (label st).node (label st).arrival (label st).cost (legs_to st)

    Spells-step :
        (current : State F) (e : Edge F) (c : EdgeCost F) (estimate : F)
        → Spells current
        → Elem e (slice_of (label current).node s.outgoing)
        → effective_cost e s.incidents r (label current).arrival ≡ some c
        → Spells (step (reached (label current) e c estimate) current c)
    unfolding legs_to
    Spells-step current e c estimate spells out cost =
        subst (Itinerary s r e.to _ _) (sym (reverse-cons (leg_of c) (legs_back current)))
          (ride e c spells out cost)

    relax-Spells :
        (current : State F) (f : Frontier F) (e : Edge F) (c : EdgeCost F)
        → Spells current
        → Elem e (slice_of (label current).node s.outgoing)
        → effective_cost e s.incidents r (label current).arrival ≡ some c
        → All Spells f.0
        → All Spells (relax s r current f e c).0
    unfolding relax
    relax-Spells current (queue, best) e c spells out cost all =
        elim (Bool-cases (no_better best e.to (add (label current).cost c.seconds))) [
          | inl worse ↦ rw (worse, relax) all
          | inr better ↦
              rw (better, relax)
                (All-perm Spells (heap.push-perm (State F) by_estimate _ queue)
                  (Spells-step current e c _ spells out cost, all))
        ]

    pub relax_all-Spells :
        (current : State F) (f : Frontier F) (es : List (Edge F))
        → Spells current
        → All (λ e. Elem e (slice_of (label current).node s.outgoing)) es
        → All Spells f.0
        → All Spells (relax_all s r current f es).0
    unfolding relax_all
    relax_all-Spells current f [] spells out all = all
    relax_all-Spells current f (e ∷ es) spells out all =
        elim (Option-cases (effective_cost e s.incidents r (label current).arrival)) [
          | inl barred ↦ rw (barred, relax_all) (relax_all-Spells current f es spells out.1 all)
          | inr (c, cost) ↦
              rw (cost, relax_all)
                (relax_all-Spells current (relax s r current f e c) es spells out.1
                  (relax-Spells current f e c spells out.0 cost all))
        ]
