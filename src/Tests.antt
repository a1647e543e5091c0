-- ===== src/Tests.antt =====
-- Runs of the model on concrete inputs.
pub mod Fixtures
mod Routes
mod Stores
mod Quotas
mod Incidents
mod Jobs
mod Caches
mod Alternatives
mod Reports
mod Recent
mod Runs
mod Traffic
mod Components
mod Cached
mod Checkpoints
mod Workers
mod Schedulers
mod Clusters
mod Polygons
mod Requests
mod Pools
