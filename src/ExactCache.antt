-- ===== src/ExactCache.antt =====
-- internal/cache/exact/cache.go and key.go, and internal/gateway/middleware/cache.go: responses to
-- chat requests that are kept in Redis under a hash of the request.
pub mod Store
pub mod Middleware
pub mod Replay
pub mod Codec
pub mod Repeat
pub mod Words
mod Tests
