-- ===== src/Routing/Snapshot.antt =====
-- internal/domain/routing/engine.go: `Snapshot`, `NewSnapshot`, `DegreeCentrality`, `Nearest`.
use route_analysis_service.Prelude.{
  String, List, [], ◌∷◌, ◌++◌, map, length, any, Bool, if◌then◌else◌, ℤ, pos, ◌-ℤ◌, Map, lookup,
  insert, none, some, str_lt, SortSlice, ◌==◌,
}
use route_analysis_service.Model.Float.{Float64}
use route_analysis_service.Model.Types.{Mode, Point, Node, Edge, Incident}
use route_analysis_service.Model.Validation.{point_valid}
use route_analysis_service.Model.Access.{mode_eq}
use route_analysis_service.Model.Error.{Result, ok, err, message, no_route}

pub record Snapshot (F : Type 0) : Type 0 where
  pub nodes : Map (Node F)
  pub edges : Map (Edge F)
  pub outgoing : Map (List (Edge F))
  pub incidents : List (Incident F)
  pub version : ℤ

module _ {F : Type 0} where
  -- `m[k]` of a map of slices: nil for a missing key.
  abbrev pub slice_of : String → Map (List (Edge F)) → List (Edge F)
  slice_of k m = elim (lookup k m) [ none ↦ [] | some es ↦ es ]

  abbrev pub by_id : Edge F → Edge F → Bool
  by_id a b = str_lt a.id b.id

  unfoldable pub index_nodes : Map (Node F) → List (Node F) → Map (Node F)
  index_nodes m [] = m
  index_nodes m (n ∷ ns) = index_nodes (insert n.id n m) ns

  unfoldable pub index_edges : Map (Edge F) → List (Edge F) → Map (Edge F)
  index_edges m [] = m
  index_edges m (e ∷ es) = index_edges (insert e.id e m) es

  -- `m[e.From] = append(m[e.From], e)` for each edge.
  unfoldable pub group_by_origin : Map (List (Edge F)) → List (Edge F) → Map (List (Edge F))
  group_by_origin m [] = m
  group_by_origin m (e ∷ es) = group_by_origin (insert e.from (slice_of e.from m ++ e ∷ []) m) es

  module _ ⦃slice : SortSlice⦄ where
    unfoldable pub sort_groups : Map (List (Edge F)) → Map (List (Edge F))
    sort_groups [] = []
    sort_groups ((k, es) ∷ m) = (k, slice.sort (Edge F) by_id es) ∷ sort_groups m

    unfoldable pub new_snapshot : List (Node F) → List (Edge F) → List (Incident F) → ℤ → Snapshot F
    unfolding index_nodes index_edges group_by_origin sort_groups
    new_snapshot nodes edges incidents version = record {
      nodes = index_nodes [] nodes;
      edges = index_edges [] edges;
      outgoing = sort_groups (group_by_origin [] edges);
      incidents = incidents;
      version = version;
    }

module _ {F : Type 0} ⦃fl : Float64 F⦄ where
  open fl use {decimal, of_int, add, sub, mul, div, lt, le, sqrt, sin, cos, atan2, pi, infinity}

  -- `DistanceMeters`
  unfoldable pub distance_meters : Point F → Point F → F
  distance_meters p to =
      let half = decimal (pos 2) 0 in
      let degrees = decimal (pos 180) 0 in
      let lat1 = div (mul p.lat pi) degrees in
      let lat2 = div (mul to.lat pi) degrees in
      let d_lat = sub lat2 lat1 in
      let d_lon = div (mul (sub to.lon p.lon) pi) degrees in
      let s_lat = sin (div d_lat half) in
      let s_lon = sin (div d_lon half) in
      let a = add (mul s_lat s_lat) (mul (mul (mul (cos lat1) (cos lat2)) s_lon) s_lon) in
      mul (decimal (pos 12742000) 0) (atan2 (sqrt a) (sqrt (sub (decimal (pos 1) 0) a)))

  abbrev pub bump : String → Map F → Map F
  bump k m =
      insert k
        (add (elim (lookup k m) [ none ↦ decimal (pos 0) 0 | some d ↦ d ]) (decimal (pos 1) 0)) m

  unfoldable pub count_ends : Map F → List (Edge F) → Map F
  count_ends m [] = m
  count_ends m (e ∷ es) = count_ends (bump e.to (bump e.from m)) es

  unfoldable pub zero_degrees : Map F → List String → Map F
  zero_degrees m [] = m
  zero_degrees m (k ∷ ks) = zero_degrees (insert k (decimal (pos 0) 0) m) ks

  unfoldable pub degree_centrality : Snapshot F → Map F
  unfolding count_ends zero_degrees
  degree_centrality s =
      let degrees =
        count_ends (zero_degrees [] (map (λ e. e.0) s.nodes)) (map (λ e. e.1) s.edges) in
      let n = of_int (pos (length s.nodes) -ℤ pos 1) in
      if le n (decimal (pos 0) 0) then degrees else map (λ e. (e.0, div e.1 n)) degrees

  -- Whether an edge that leaves the node supports the mode.
  unfoldable pub routable : Snapshot F → Mode → String → Bool
  routable s mode id = any (λ e. any (λ m. mode_eq m mode) e.modes) (slice_of id s.outgoing)

  -- The loop of `Nearest`: the nearest so far, with its distance.
  unfoldable pub nearest_loop : Snapshot F → Point F → Mode → String × F → Map (Node F) → String × F
  nearest_loop s point mode best [] = best
  nearest_loop s point mode best ((id, n) ∷ rest) =
      let d = distance_meters point n.location in
      nearest_loop s point mode
        (if routable s mode id then (if lt d best.1 then (id, d) else best) else best) rest

  unfoldable pub nearest : Snapshot F → Point F → Mode → Result (String × F)
  unfolding nearest_loop routable
  nearest s point mode =
      let best = nearest_loop s point mode ("", infinity) s.nodes in
      if point_valid point
      then (if best.0 == "" then err no_route else ok best)
      else err (message "invalid point")
