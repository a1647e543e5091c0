-- ===== src/Analytics.antt =====
-- internal/domain/analytics: checks of a network and of demand, components, and observed traffic.
pub mod Validation
pub mod Acceptance
pub mod Demand
pub mod Traffic
pub mod Recorded
pub mod Adjacency
pub mod Grouped
pub mod Windows
pub mod Pruned
