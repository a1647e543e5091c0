-- ===== src/Network.antt =====
-- internal/domain/network: which edges a request may use and what they cost, the topology of a
-- graph, its connected components, and paths.
pub mod Edges
pub mod Paths
pub mod Flood
pub mod Labels
pub mod Spread
pub mod Components
pub mod Topology
pub mod Groups
pub mod Weak
