-- ===== src/Routing/Deviation.antt =====
-- The snapshots without one edge that `KRoutes` of internal/domain/routing/engine.go searches: their
-- itineraries are itineraries of the snapshot itself.
use route_analysis_service.Prelude.{
  String, List, [], ◌∷◌, filter, true, ◌==◌, Map, lookup, delete, insert, values, SortSlice, All,
  All-insert, All-delete, All-filter, All-filter_self, Elem, Elem-All, Elem-filter, Elem-perm,
  All-Elem, ◌≡◌, subst, ℤ,
}
use route_analysis_service.Model.Float.{Float64}
use route_analysis_service.Model.Time.{Time}
use route_analysis_service.Model.Types.{Node, Edge, Incident, RouteRequest, RouteLeg}
use route_analysis_service.Routing.Snapshot.{slice_of, index_edges, new_snapshot}
use route_analysis_service.Routing.Alternatives.{without_edge}
use route_analysis_service.Routing.Index.{group_by_origin-slice_of, new_snapshot-outgoing}
use route_analysis_service.Routing.Itinerary.{Itinerary, depart, ride}

module _ {F : Type 0} where
  index_edges-Elem :
      (edges : List (Edge F)) (m : Map (Edge F)) (es : List (Edge F))
      → All (λ x. Elem x.1 edges) m
      → All (λ e. Elem e edges) es
      → All (λ x. Elem x.1 edges) (index_edges m es)
  unfolding index_edges
  index_edges-Elem edges m [] a b = a
  index_edges-Elem edges m (e ∷ es) a b =
      index_edges-Elem edges (insert e.id e m) es (All-insert (λ x. Elem x.1 edges) e.id e m b.0 a)
        b.1

  All-values : (P : Edge F → Type 0) (m : Map (Edge F)) → All (λ x. P x.1) m → All P (values m)
  All-values P [] a = tt
  All-values P (x ∷ m) a = (a.0, All-values P m a.1)

  module _ ⦃slice : SortSlice⦄ (nodes : List (Node F)) (edges : List (Edge F))
      (incidents : List (Incident F)) (version : ℤ) where
    -- An edge that leaves a node without some edge leaves it in the snapshot.
    without_edge-outgoing :
        (id n : String) (e : Edge F)
        → Elem e
            (slice_of n (without_edge (new_snapshot nodes edges incidents version) id).outgoing)
        → Elem e (slice_of n (new_snapshot nodes edges incidents version).outgoing)
    unfolding without_edge new_snapshot filter lookup
    without_edge-outgoing id n e m =
        let left = delete id (index_edges [] edges) in
        let given : All (λ x. Elem x edges) (values left) =
          All-values (λ x. Elem x edges) left
            (All-delete (λ x. Elem x.1 edges) id (index_edges [] edges)
              (index_edges-Elem edges [] edges tt (All-Elem edges))) in
        let found : Elem e (filter (λ x. x.from == n) (values left)) =
          subst (Elem e) (group_by_origin-slice_of n [] (values left)) m in
        let here =
          Elem-All (λ x. Elem x edges) e _
            (All-filter (λ x. Elem x edges) (λ x. x.from == n) (values left) given) found in
        let leaves =
          Elem-All (λ x. (x.from == n) ≡ true) e _
            (All-filter_self (λ x. x.from == n) (values left)) found in
        Elem-perm e (new_snapshot-outgoing nodes edges incidents version n)
          (Elem-filter (λ x. x.from == n) e edges here leaves)

    module _ ⦃fl : Float64 F⦄ where
      pub without_edge-Itinerary :
          (id : String) (r : RouteRequest F) {node : String} {at : Time} {cost : F}
          {legs : List (RouteLeg F)}
          → Itinerary
              (without_edge (new_snapshot nodes edges incidents version) id)
              r
              node
              at
              cost
              legs
          → Itinerary (new_snapshot nodes edges incidents version) r node at cost legs
      unfolding without_edge
      without_edge-Itinerary id r depart = depart
      without_edge-Itinerary id r (ride e c before out cost) =
          ride e c (without_edge-Itinerary id r before) (without_edge-outgoing id _ e out) cost
