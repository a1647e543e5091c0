-- ===== src/Model/Access.antt =====
-- internal/domain/model/types.go: who may use an edge, which incidents apply to it, and its cost.
use route_analysis_service.Prelude.{
  String, List, map, [], ◌∷◌, pos, ltb_ℤ, Bool, true, false, not, ◌&&◌, ◌||◌, ◌==◌, any, filter,
  Option, none, some, if◌then◌else◌, SortSlice,
}
use route_analysis_service.Model.Float.{Float64}
use route_analysis_service.Model.Time.{Time, window_contains}
use route_analysis_service.Model.Types.{
  Mode, drive, walk, bike, transit, IncidentStatus, AccessRule, Edge, Incident, RouteRequest,
  EdgeCost,
}

-- `a == b` on modes and on incident statuses.
unfoldable pub mode_eq : Mode → Mode → Bool
mode_eq drive drive = true
mode_eq walk walk = true
mode_eq bike bike = true
mode_eq transit transit = true
mode_eq (Mode.other a) (Mode.other b) = a == b
mode_eq _ _ = false

unfoldable pub is_active : IncidentStatus → Bool
is_active IncidentStatus.active = true
is_active _ = false

unfoldable pub rule_applies : AccessRule → Mode → Time → String → Bool
rule_applies a mode at vehicle =
    mode_eq a.mode mode
    && window_contains a.window at
    && (a.vehicle_class == "" || a.vehicle_class == vehicle)

-- The first rule that applies decides; with none the edge is open.
unfoldable pub first_rule : List AccessRule → Mode → Time → String → Bool
first_rule [] mode at vehicle = true
first_rule (rule ∷ rules) mode at vehicle =
    if rule_applies rule mode at vehicle then rule.allowed else first_rule rules mode at vehicle

module _ {F : Type 0} where
  unfoldable pub supports : Edge F → Mode → Time → String → Bool
  supports e mode at vehicle =
      if any (λ m. mode_eq m mode) e.modes then first_rule e.rules mode at vehicle else false

  unfoldable pub applies : Incident F → String → Time → Bool
  applies i edge at =
      if not (is_active i.status) || not (window_contains i.window at)
      then false
      else any (λ id. id == edge) i.edge_ids

  -- `active[i].Priority > active[j].Priority`
  abbrev pub by_priority : Incident F → Incident F → Bool
  by_priority a b = ltb_ℤ b.priority a.priority

module _ {F : Type 0} ⦃fl : Float64 F⦄ where
  open fl use {decimal, lt, div, abs}

  -- The loop over the active incidents: a closure ends it; a positive factor divides the time.
  unfoldable pub apply_incidents : List (Incident F) → F → Option F
  apply_incidents [] seconds = some seconds
  apply_incidents (i ∷ rest) seconds =
      if i.closed
      then none
      else apply_incidents rest
          (if lt (decimal (pos 0) 0) i.speed_factor then div seconds i.speed_factor else seconds)

  -- The refusals that do not depend on incidents.
  unfoldable pub barred : Edge F → RouteRequest F → Time → Bool
  barred e r at =
      not (supports e r.mode at r.vehicle_class)
      || (r.avoid_tolls && ltb_ℤ (pos 0) e.toll_cents)
      || (lt (decimal (pos 0) 0) r.max_slope && lt r.max_slope (abs e.slope_percent))

  unfoldable pub priced : Edge F → List (Incident F) → Option F → Option (EdgeCost F)
  priced e active none = none
  priced e active (some seconds) =
      some (record { edge = e; seconds = seconds; incident_ids = map (λ i. i.id) active })

  module _ ⦃slice : SortSlice⦄ where
    abbrev pub active_sorted : Edge F → List (Incident F) → Time → List (Incident F)
    active_sorted e incidents at =
        slice.sort (Incident F) by_priority (filter (λ i. applies i e.id at) incidents)

    -- `none` is the result `false`: the edge may not be used.
    unfoldable pub effective_cost :
        Edge F → List (Incident F) → RouteRequest F → Time → Option (EdgeCost F)
    unfolding priced
    effective_cost e incidents r at =
        if barred e r at
        then none
        else priced e (active_sorted e incidents at)
            (apply_incidents (active_sorted e incidents at) e.base_seconds)
