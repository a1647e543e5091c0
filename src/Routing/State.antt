-- ===== src/Routing/State.antt =====
-- internal/domain/routing/engine.go: `state`, the heuristic and `result`. The chain of `previous`
-- pointers is never written after a state is made, so it is a value.
use route_analysis_service.Prelude.{
  String, str_append, List, [], ◌∷◌, reverse, Bool, if◌then◌else◌, ℤ, pos, ◌+64◌, lookup, none,
  some,
}
use route_analysis_service.Model.Float.{Float64}
use route_analysis_service.Model.Time.{Time, Duration, second}
use route_analysis_service.Model.Types.{
  Mode, walk, bike, transit, Point, EdgeCost, RouteRequest, RouteLeg, RouteResult,
}
use route_analysis_service.Model.Validation.{is_nil}
use route_analysis_service.Routing.Snapshot.{Snapshot, distance_meters}

pub record Label (F : Type 0) : Type 0 where
  pub node : String
  pub cost : F
  pub estimate : F
  pub arrival : Time

-- `root` has no `previous`; `step` came over an edge from another state.
pub data State (F : Type 0) : Type 0 where
  root : Label F → State F
  step : Label F → State F → EdgeCost F → State F

module _ {F : Type 0} where
  abbrev pub label : State F → Label F
  label (root l) = l
  label (step l previous edge) = l

  abbrev pub leg_of : EdgeCost F → RouteLeg F
  leg_of c = record {
    edge_id = c.edge.id;
    from = c.edge.from;
    to = c.edge.to;
    seconds = c.seconds;
    length_meters = c.edge.length_meters;
    toll_cents = c.edge.toll_cents;
    incident_ids = c.incident_ids;
  }

  -- The walk from the end to the start.
  unfoldable pub legs_back : State F → List (RouteLeg F)
  legs_back (root l) = []
  legs_back (step l previous edge) = leg_of edge ∷ legs_back previous

  unfoldable pub legs_to : State F → List (RouteLeg F)
  unfolding legs_back
  legs_to st = reverse (legs_back st)

  unfoldable pub explain : List (RouteLeg F) → List String
  explain [] = []
  explain (l ∷ ls) =
      if is_nil l.incident_ids
      then explain ls
      else str_append "active incident adjusted edge " l.edge_id ∷ explain ls

module _ {F : Type 0} ⦃fl : Float64 F⦄ where
  open fl use {decimal, of_int, add, mul, div, lt, truncate}

  -- `time.Duration(seconds * float64(time.Second))`
  abbrev pub duration : F → Duration
  duration seconds = truncate (mul seconds (of_int second))

  -- `queue.Less`
  abbrev pub by_estimate : State F → State F → Bool
  by_estimate a b = lt (label a).estimate (label b).estimate

  unfoldable pub top_speed : Mode → F
  top_speed walk = decimal (pos 13) 1
  top_speed bike = decimal (pos 5) 0
  top_speed transit = decimal (pos 10) 0
  top_speed _ = decimal (pos 15) 0

  unfoldable pub heuristic : Point F → Point F → Mode → F
  unfolding top_speed
  heuristic from to mode = div (distance_meters from to) (top_speed mode)

  -- `s.Nodes[id].Location`: a missing node reads as the zero value.
  unfoldable pub location_of : Snapshot F → String → Point F
  location_of s id = elim (lookup id s.nodes) [
    | none ↦ record { lat = decimal (pos 0) 0; lon = decimal (pos 0) 0 }
    | some n ↦ n.location
  ]

  unfoldable pub sum_meters : F → List (RouteLeg F) → F
  sum_meters meters [] = meters
  sum_meters meters (l ∷ ls) = sum_meters (add meters l.length_meters) ls

  unfoldable pub sum_tolls : ℤ → List (RouteLeg F) → ℤ
  sum_tolls toll [] = toll
  sum_tolls toll (l ∷ ls) = sum_tolls (toll +64 l.toll_cents) ls

  unfoldable pub result_of : Snapshot F → RouteRequest F → State F → RouteResult F
  unfolding legs_to sum_meters sum_tolls explain
  result_of s r end = record {
    dataset_id = r.dataset_id;
    snapshot_version = s.version;
    algorithm = "a-star-time-dependent";
    departure = r.departure;
    arrival = (label end).arrival;
    total_seconds = (label end).cost;
    total_meters = sum_meters (decimal (pos 0) 0) (legs_to end);
    total_toll_cents = sum_tolls (pos 0) (legs_to end);
    legs = legs_to end;
    explanation =
        "A* time-dependent routing"
        ∷ "snapshot version is pinned for query consistency"
        ∷ explain (legs_to end);
  }
