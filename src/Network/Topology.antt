-- ===== src/Network/Topology.antt =====
-- internal/domain/network/topology.go, and internal/domain/network/connectivity.go over it. The labels of
-- components count up from 1, one for each search.
use route_analysis_service.Prelude.{
  ℕ, String, str_lt, str_append, List, [], ◌∷◌, ◌++◌, map, length, filter, Bool, not, ◌&&◌, ◌==◌,
  if◌then◌else◌, ◌+◌, Map, lookup, insert, contains, Option, none, some, SortSlice, eq_ℕ, false,
}
use route_analysis_service.Model.Types.{Node, Edge}
use route_analysis_service.Model.Validation.{is_nil}
use route_analysis_service.Model.Error.{Result, ok, message, reject_if, ◌>>=◌, ◌>>◌}
use route_analysis_service.Routing.Snapshot.{slice_of, sort_groups}
use route_analysis_service.Network.Flood.{label_all}

pub record Topology (F : Type 0) : Type 0 where
  pub nodes : Map (Node F)
  pub edges : Map (Edge F)
  pub outgoing : Map (List (Edge F))
  pub incoming : Map (List (Edge F))

module _ {F : Type 0} where
  unfoldable pub add_nodes : Map (Node F) → List (Node F) → Result (Map (Node F))
  add_nodes m [] = ok m
  add_nodes m (n ∷ ns) =
      reject_if (contains n.id m) (message (str_append "duplicate node " n.id))
      >> add_nodes (insert n.id n m) ns

  -- `m[k] = append(m[k], e)`
  unfoldable pub place : String → Edge F → Map (List (Edge F)) → Map (List (Edge F))
  place k e m = insert k (slice_of k m ++ e ∷ []) m

  unfoldable pub add_edge : Topology F → Edge F → Result (Topology F)
  unfolding place
  add_edge t e = do
    reject_if (not (contains e.from t.nodes)) (message (str_append "edge origin missing: " e.from))
    reject_if (not (contains e.to t.nodes)) (message (str_append "edge destination missing: " e.to))
    reject_if (contains e.id t.edges) (message (str_append "duplicate edge " e.id))
    ok (record t {
      edges = insert e.id e t.edges;
      outgoing = place e.from e t.outgoing;
      incoming = place e.to e t.incoming;
    })

  unfoldable pub add_edges : Topology F → List (Edge F) → Result (Topology F)
  add_edges t [] = ok t
  add_edges t (e ∷ es) = add_edge t e >>= λ t'. add_edges t' es

  -- The nodes that the edges of a node lead to or come from.
  unfoldable pub neighbour : String → Edge F → String
  neighbour current e = if e.to == current then e.from else e.to

  unfoldable pub neighbours : Topology F → String → List String
  neighbours t current =
      map (neighbour current) (slice_of current t.outgoing ++ slice_of current t.incoming)

  unfoldable pub degree : Topology F → String → ℕ × ℕ × ℕ
  degree t id =
      let inward = length (slice_of id t.incoming) in
      let outward = length (slice_of id t.outgoing) in (inward, outward, inward + outward)

  module _ ⦃slice : SortSlice⦄ where
    unfoldable pub sorted_topology : Topology F → Topology F
    sorted_topology t = record t {
      outgoing = sort_groups t.outgoing;
      incoming = sort_groups t.incoming;
    }

    unfoldable pub build_topology : List (Node F) → List (Edge F) → Result (Topology F)
    build_topology nodes edges = add_nodes [] nodes >>= λ m.
        add_edges (record { nodes = m; edges = []; outgoing = []; incoming = [] }) edges >>= λ t.
        ok (sorted_topology t)

    unfoldable pub nodes_sorted : Topology F → List String
    nodes_sorted t = slice.sort String str_lt (map (λ n. n.0) t.nodes)

    unfoldable pub isolated : Topology F → List String
    isolated t =
        filter (λ id. is_nil (slice_of id t.outgoing) && is_nil (slice_of id t.incoming))
          (nodes_sorted t)

    unfoldable pub compute_connectivity : ℕ → Topology F → Option (Map ℕ × ℕ)
    compute_connectivity fuel t = label_all (neighbours t) fuel (nodes_sorted t) ([], 0)

-- `SameComponent`, from the labels.
unfoldable pub same_component : Map ℕ → String → String → Bool
same_component labels a b = elim (lookup a labels) [
  | none ↦ false
  | some left ↦ elim (lookup b labels) [ none ↦ false | some right ↦ eq_ℕ left right ]
]
