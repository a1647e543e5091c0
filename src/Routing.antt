-- ===== src/Routing.antt =====
-- internal/domain/routing/engine.go: a pinned view of a graph, and the searches over it.
pub mod Snapshot
pub mod State
pub mod Search
pub mod Itinerary
pub mod Progress
pub mod Answer
pub mod Index
pub mod Isochrone
pub mod Alternatives
pub mod Size
pub mod Deviation
pub mod Pool
pub mod Choices
pub mod Closest
