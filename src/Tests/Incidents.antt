-- ===== src/Tests/Incidents.antt =====
-- Incidents of internal/domain/incident.
use route_analysis_service.Prelude.{ℕ, List, [], ◌∷◌, map, filter, true, false, not, pos, none, ◌≡◌}
use route_analysis_service.Model.Types.{Incident, IncidentStatus}
use route_analysis_service.Incident.Lifecycle.{
  selected, settled, moves, ids, failed_ids, batch_transition, batch_transition-Adds, is_due,
  resolve, resolve_expired, resolve_expired_lem,
}
use route_analysis_service.Incident.Resolver.{Dominates, dominant, dominant-Dominates}
use route_analysis_service.Tests.Fixtures.{incident}

abbrev items : List (Incident ℕ)
items =
    incident "i" IncidentStatus.active (pos 1) false
    ∷ incident "j" IncidentStatus.draft (pos 2) true
    ∷ incident "k" IncidentStatus.active (pos 3) true
    ∷ []

batch_transition-Adds_example :
    let chosen = filter (selected none) items in
    let r = batch_transition items none IncidentStatus.resolved in
    (r.0 ≡ map (settled IncidentStatus.resolved) chosen)
    × (r.1.updated ≡ ids (filter (moves IncidentStatus.resolved) chosen))
    × (failed_ids r.1.failed ≡ ids (filter (λ i. not (moves IncidentStatus.resolved i)) chosen))
batch_transition-Adds_example = batch_transition-Adds items none IncidentStatus.resolved

resolve_expired_lem_example :
    resolve_expired items (pos 60)
    ≡ (map resolve (filter (is_due (pos 60)) items), ids (filter (is_due (pos 60)) items), none)
resolve_expired_lem_example = resolve_expired_lem items (pos 60)

dominant-Dominates_example : Dominates "ab" (pos 9) items (dominant items "ab" (pos 9))
dominant-Dominates_example = dominant-Dominates items "ab" (pos 9)
