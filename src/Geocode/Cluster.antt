-- ===== src/Geocode/Cluster.antt =====
-- internal/domain/geocode/cluster.go. `DistanceMeters` of haversine.go is that of a point.
use route_analysis_service.Prelude.{
  String, str_lt, List, [], ◌∷◌, ◌++◌, map, length, Bool, true, false, not, ◌||◌, ◌==◌,
  if◌then◌else◌, pos, Map, lookup, insert, flag, none, some, SortSlice,
}
use route_analysis_service.Model.Float.{Float64}
use route_analysis_service.Model.Types.{Point}
use route_analysis_service.Routing.Snapshot.{distance_meters}

pub record Cluster (F : Type 0) : Type 0 where
  pub centroid : Point F
  pub nodes : List String

-- The cluster in the making: its nodes, the sums of their coordinates, and the nodes that remain.
pub record Gathered (F : Type 0) : Type 0 where
  pub nodes : List String
  pub lat_sum : F
  pub lon_sum : F
  pub remaining : Map Bool

unfoldable pub set_all : List String → Map Bool → Map Bool
set_all [] m = m
set_all (id ∷ ids) m = set_all ids (insert id true m)

module _ {F : Type 0} ⦃fl : Float64 F⦄ where
  open fl use {decimal, of_int, add, div, le}

  -- `nodes[id]`, which is the zero point for a missing node.
  abbrev pub place_of : Map (Point F) → String → Point F
  place_of nodes id = elim (lookup id nodes) [
    | none ↦ record { lat = decimal (pos 0) 0; lon = decimal (pos 0) 0 }
    | some p ↦ p
  ]

  abbrev pub is_near : Map (Point F) → F → String → String → Bool
  is_near nodes radius seed candidate =
      le (distance_meters (place_of nodes seed) (place_of nodes candidate)) radius

  -- The body of the loop over the candidates.
  unfoldable pub gather : Map (Point F) → F → String → String → Gathered F → Gathered F
  gather nodes radius seed candidate g =
      if candidate == seed || not (flag candidate g.remaining)
      then g
      else if is_near nodes radius seed candidate
      then record {
        nodes = g.nodes ++ candidate ∷ [];
        lat_sum = add g.lat_sum (place_of nodes candidate).lat;
        lon_sum = add g.lon_sum (place_of nodes candidate).lon;
        remaining = insert candidate false g.remaining;
      }
      else g

  unfoldable pub gather_all : Map (Point F) → F → String → List String → Gathered F → Gathered F
  unfolding gather
  gather_all nodes radius seed [] g = g
  gather_all nodes radius seed (c ∷ cs) g =
      gather_all nodes radius seed cs (gather nodes radius seed c g)

  -- The cluster of a seed, and the nodes that remain after it.
  unfoldable pub cluster_of :
      Map (Point F) → F → List String → String → Map Bool → Cluster F × Map Bool
  unfolding gather_all
  cluster_of nodes radius ids seed remaining =
      let g = gather_all nodes radius seed ids (record {
        nodes = seed ∷ [];
        lat_sum = (place_of nodes seed).lat;
        lon_sum = (place_of nodes seed).lon;
        remaining = remaining;
      }) in
      let n = of_int (pos (length g.nodes)) in
      (
        record {
          centroid = record { lat = div g.lat_sum n; lon = div g.lon_sum n };
          nodes = g.nodes;
        },
        insert seed false g.remaining,
      )

  -- The loop over the seeds, and its body.
  unfoldable pub visit_seed :
      Map (Point F)
      → F
      → List String
      → String
      → Map Bool × List (Cluster F)
      → Map Bool × List (Cluster F)
  unfolding cluster_of
  visit_seed nodes radius ids seed (remaining, clusters) =
      if not (flag seed remaining)
      then (remaining, clusters)
      else let (cluster, left) = cluster_of nodes radius ids seed remaining in
        (left, clusters ++ cluster ∷ [])

  unfoldable pub cluster_loop :
      Map (Point F)
      → F
      → List String
      → List String
      → Map Bool × List (Cluster F)
      → Map Bool × List (Cluster F)
  unfolding visit_seed
  cluster_loop nodes radius ids [] acc = acc
  cluster_loop nodes radius ids (seed ∷ seeds) acc =
      cluster_loop nodes radius ids seeds (visit_seed nodes radius ids seed acc)

  abbrev pub radius_or_default : F → F
  radius_or_default radius = if le radius (decimal (pos 0) 0) then decimal (pos 500) 0 else radius

  unfoldable pub cluster_nodes : ⦃slice : SortSlice⦄ → Map (Point F) → F → List (Cluster F)
  unfolding cluster_loop set_all
  cluster_nodes ⦃slice⦄ nodes radius =
      let ids = slice.sort String str_lt (map (λ e. e.0) nodes) in
      (cluster_loop nodes (radius_or_default radius) ids ids (set_all ids [], [])).1
