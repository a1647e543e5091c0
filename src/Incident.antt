-- ===== src/Incident.antt =====
-- internal/domain/incident: the life cycle of incidents, conflicts between them, and what they do
-- to an edge at a time.
pub mod State
pub mod Lifecycle
pub mod Resolver
pub mod Eligibility
