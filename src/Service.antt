-- ===== src/Service.antt =====
-- internal/application: the calls of the service on the store.
pub mod Incidents
pub mod Activation
pub mod Parameters
pub mod Analysis
pub mod Jobs
pub mod Returns
pub mod Completion
pub mod Submission
pub mod Cached
