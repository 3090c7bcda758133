-- ===== src/Cache.antt =====
-- infrastructure/cache: the cache in memory, the Redis client, and the cache in Redis.
pub mod Memory
pub mod Window
pub mod Client
pub mod Redis
pub mod Attempts
pub mod Available
pub mod Refinement
pub mod Contract
pub mod Implementations
