-- ===== src/Model.antt =====
-- internal/domain/model/types.go: the domain's records, their validation and the cost of an edge.
pub mod Float
pub mod Time
pub mod Types
pub mod Error
pub mod Validation
pub mod Access
