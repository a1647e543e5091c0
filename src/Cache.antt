-- ===== src/Cache.antt =====
-- internal/infrastructure/cache: the caches.
pub mod Ttl
pub mod Lru
pub mod Linked
pub mod Elements
pub mod Eviction
pub mod Recency
pub mod Uses
