-- ===== src/Redis.antt =====
-- libs/redis/src/redis.service.ts: the commands on strings, and the cache-aside pattern with a
-- lock.
pub mod CacheAside
pub mod Service
pub mod SingleFlight
mod Tests
