-- ===== src/Geocode.antt =====
-- internal/domain/geocode: clusters, polygons and the grid of points.
pub mod Cluster
pub mod Partition
pub mod Apart
pub mod Polygon
pub mod Box
