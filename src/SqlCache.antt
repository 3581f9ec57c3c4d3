-- ===== src/SqlCache.antt =====
-- Package sqlcache, under db/sqlcache.
pub mod Results
pub mod Scanner
pub mod Plans
pub mod Connection
pub mod ArgumentKey
