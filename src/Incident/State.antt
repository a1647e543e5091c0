-- ===== src/Incident/State.antt =====
-- internal/domain/incident/state.go: the legal changes of an incident's status.
use route_analysis_service.Prelude.{
  String, List, [], ◌∷◌, Bool, true, false, ◌==◌, any, if◌then◌else◌, Option, none, some,
}
use route_analysis_service.Model.Types.{IncidentStatus, draft, active, resolved, revoked, Incident}
use route_analysis_service.Model.Error.{
  Result, ok, err, unknown_status, transition as bad_transition,
}

-- `a == b` on statuses.
unfoldable pub status_eq : IncidentStatus → IncidentStatus → Bool
status_eq draft draft = true
status_eq active active = true
status_eq resolved resolved = true
status_eq revoked revoked = true
status_eq (IncidentStatus.other a) (IncidentStatus.other b) = a == b
status_eq _ _ = false

-- The keys of the map that `AllowedTransitions` returns, all of them with the value `true`.
unfoldable pub allowed_transitions : IncidentStatus → List IncidentStatus
allowed_transitions draft = active ∷ revoked ∷ []
allowed_transitions active = resolved ∷ revoked ∷ []
allowed_transitions resolved = active ∷ []
allowed_transitions revoked = draft ∷ []
allowed_transitions (IncidentStatus.other s) = []

-- `AllowedTransitions(from)[to]`
unfoldable pub is_allowed : IncidentStatus → IncidentStatus → Bool
unfolding allowed_transitions status_eq
is_allowed from to = any (λ s. status_eq s to) (allowed_transitions from)

unfoldable pub transition : {F : Type 0} → Incident F → IncidentStatus → Result (Incident F)
transition current next =
    if is_allowed current.status next
    then ok (record current { status = next })
    else err (bad_transition current.id current.status next)

-- `none` is the panic.
unfoldable pub must_transition : {F : Type 0} → Incident F → IncidentStatus → Option (Incident F)
must_transition current next = elim (transition current next) [ ok i ↦ some i | err e ↦ none ]

unfoldable pub validate_lifecycle : String → IncidentStatus → IncidentStatus → Result (Unit {0})
validate_lifecycle id from to =
    if is_allowed from to then ok tt else err (bad_transition id from to)

unfoldable pub normalize_status : String → Result IncidentStatus
normalize_status raw =
    if raw == "draft"
    then ok draft
    else if raw == "active"
    then ok active
    else if raw == "resolved"
    then ok resolved
    else if raw == "revoked"
    then ok revoked
    else err unknown_status

-- The text of a status.
unfoldable pub status_text : IncidentStatus → String
status_text draft = "draft"
status_text active = "active"
status_text resolved = "resolved"
status_text revoked = "revoked"
status_text (IncidentStatus.other s) = s
