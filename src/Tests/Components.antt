-- ===== src/Tests/Components.antt =====
-- Components of internal/domain/network/connectivity.go and internal/domain/analytics/validation.go.
use route_analysis_service.Prelude.{
  ℕ, String, List, [], ◌∷◌, Map, lookup, insert, contains, true, some, map, Elem, inl, inr, ◌≡◌,
  ◌↔◌, refl, arith,
}
use route_analysis_service.Model.Types.{Node, Edge}
use route_analysis_service.Network.Topology.{
  Topology, add_nodes, place, add_edge, add_edges, sorted_topology, build_topology,
  compute_connectivity, same_component,
}
use route_analysis_service.Network.Weak.{Joined, compute_connectivity-Joined}
use route_analysis_service.Analytics.Adjacency.{connectivity}
use route_analysis_service.Analytics.Grouped.{connectivity-Joined}
use route_analysis_service.Tests.Fixtures.{sorting, node, edge}

-- The edges join `a` and `b`, and leave `c` alone.
abbrev ends : List (Node ℕ)
ends = node "a" ∷ node "b" ∷ node "c" ∷ []

abbrev road : List (Edge ℕ)
road = edge "ab" "a" "b" 3 ∷ []

abbrev topology : Topology ℕ
topology = sorted_topology (record {
  nodes = ("a", node "a") ∷ ("b", node "b") ∷ ("c", node "c") ∷ [];
  edges = ("ab", edge "ab" "a" "b" 3) ∷ [];
  outgoing = ("a", edge "ab" "a" "b" 3 ∷ []) ∷ [];
  incoming = ("b", edge "ab" "a" "b" 3 ∷ []) ∷ [];
})

compute_connectivity-Joined_example :
    (labels : Map ℕ) × (count : ℕ) × (compute_connectivity 9 topology ≡ some (labels, count))
    × ((a b : String)
        → contains a topology.nodes ≡ true
        → contains b topology.nodes ≡ true
        → (same_component labels a b ≡ true) ↔ Joined road a b)
unfolding build_topology add_nodes add_edges add_edge place insert lookup sorted_topology
compute_connectivity-Joined_example =
    compute_connectivity-Joined ends road topology 9 refl (omega arith)

road_known :
    (e : Edge ℕ)
    → Elem e road
    → Elem e.from (map (λ n. n.id) ends) × Elem e.to (map (λ n. n.id) ends)
road_known e (inl same) = rw same (inl refl, inr (inl refl))
road_known e (inr none_left) = absurd none_left

connectivity-Joined_example :
    (labels : Map ℕ) × (connectivity 9 ends road ≡ some labels)
    × ((a b : String)
        → Elem a (map (λ n. n.id) ends)
        → Elem b (map (λ n. n.id) ends)
        → (contains a labels ≡ true) × ((lookup a labels ≡ lookup b labels) ↔ Joined road a b))
connectivity-Joined_example = connectivity-Joined ends road 9 road_known (omega arith)
