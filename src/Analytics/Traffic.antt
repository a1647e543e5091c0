-- ===== src/Analytics/Traffic.antt =====
-- internal/domain/analytics/network.go: observations of the traffic on edges.
use route_analysis_service.Prelude.{
  String, List, [], ◌∷◌, ◌++◌, length, drop, not, ◌||◌, ◌&&◌, ◌==◌, if◌then◌else◌, ℤ, pos, pos_part,
  ◌-ℤ◌, ltb_ℤ, Map, lookup, insert, Option, none, some,
}
use route_analysis_service.Model.Float.{Float64}
use route_analysis_service.Model.Time.{Time, after, before, is_zero}
use route_analysis_service.Model.Types.{Edge}
use route_analysis_service.Model.Error.{Result, ok, err, message, reject_if, ◌>>◌}

pub record EdgeObservation (F : Type 0) : Type 0 where
  pub edge_id : String
  pub at : Time
  pub speed_kph : F
  pub occupancy : F
  pub source : String

pub record TrafficIndex (F : Type 0) : Type 0 where
  pub values : Map (List (EdgeObservation F))
  pub limit : ℤ

module _ {F : Type 0} where
  unfoldable pub new_traffic_index : ℤ → TrafficIndex F
  new_traffic_index limit = record {
    values = [];
    limit = if ltb_ℤ limit (pos 100) then pos 100 else limit;
  }

  -- `i.values[edge]`, which is nil for an edge without observations.
  abbrev pub observed : TrafficIndex F → String → List (EdgeObservation F)
  observed index edge = elim (lookup edge index.values) [ none ↦ [] | some os ↦ os ]

  -- The last `limit` of a list that is longer.
  unfoldable pub trimmed : ℤ → List (EdgeObservation F) → List (EdgeObservation F)
  trimmed limit os =
      if ltb_ℤ limit (pos (length os)) then drop (pos_part (pos (length os) -ℤ limit)) os else os

  -- The loop of `Latest`: the first of the latest ones so far.
  unfoldable pub latest_loop :
      Time → Option (EdgeObservation F) → List (EdgeObservation F) → Option (EdgeObservation F)
  latest_loop at found [] = found
  latest_loop at none (o ∷ os) = latest_loop at (if not (after o.at at) then some o else none) os
  latest_loop at (some best) (o ∷ os) =
      latest_loop at (if not (after o.at at) && after o.at best.at then some o else some best) os

  unfoldable pub latest : TrafficIndex F → String → Time → Option (EdgeObservation F)
  latest index edge at = latest_loop at none (observed index edge)

module _ {F : Type 0} ⦃fl : Float64 F⦄ where
  open fl use {decimal, add, div, lt, le}

  unfoldable pub validate_observation : EdgeObservation F → Result (Unit {0})
  validate_observation o = do
    reject_if (o.edge_id == "" || is_zero o.at) (message "edge and timestamp required")
    reject_if
        (lt o.speed_kph (decimal (pos 0) 0)
          || lt o.occupancy (decimal (pos 0) 0)
          || lt (decimal (pos 1) 0) o.occupancy)
        (message "invalid traffic values")
    ok tt

  -- `Record`, after the validation.
  unfoldable pub added : TrafficIndex F → EdgeObservation F → TrafficIndex F
  added index o = record index {
    values =
        insert o.edge_id (trimmed index.limit (observed index o.edge_id ++ o ∷ [])) index.values;
  }

  unfoldable pub recorded :
      TrafficIndex F → EdgeObservation F → Result (Unit {0}) → TrafficIndex F × Result (Unit {0})
  recorded index o (err e) = (index, err e)
  recorded index o (ok _) = (added index o, ok tt)

  unfoldable pub record_observation :
      TrafficIndex F → EdgeObservation F → TrafficIndex F × Result (Unit {0})
  record_observation index o = recorded index o (validate_observation o)

  -- The seconds that the edge takes at the last speed seen, or its base time without one.
  unfoldable pub estimate_from : Edge F → Option (EdgeObservation F) → F
  estimate_from edge none = edge.base_seconds
  estimate_from edge (some o) =
      if le o.speed_kph (decimal (pos 0) 0)
      then edge.base_seconds
      else div edge.length_meters (div o.speed_kph (decimal (pos 36) 1))

  unfoldable pub estimate : TrafficIndex F → Edge F → Time → F
  estimate index edge at = estimate_from edge (latest index edge.id at)

  -- The sums of speed and occupancy, and the count.
  unfoldable pub sum_loop : Time → Time → F × F × F → List (EdgeObservation F) → F × F × F
  sum_loop from to acc [] = acc
  sum_loop from to (speed, occupancy, count) (o ∷ os) =
      sum_loop from to
        (if not (before o.at from) && not (after o.at to)
          then (add speed o.speed_kph, add occupancy o.occupancy, add count (decimal (pos 1) 0))
          else (speed, occupancy, count))
        os

  unfoldable pub summary : TrafficIndex F → String → Time → Time → Map F
  unfolding sum_loop
  summary index edge from to =
      let zero_float = decimal (pos 0) 0 in
      let (speed, occupancy, count) =
        sum_loop from to (zero_float, zero_float, zero_float) (observed index edge) in
      if le count zero_float && le zero_float count
      then ("samples", zero_float) ∷ []
      else ("samples", count)
        ∷ ("average_speed_kph", div speed count)
        ∷ ("average_occupancy", div occupancy count)
        ∷ []
