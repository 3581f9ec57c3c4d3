-- ===== src/Db.antt =====
-- The database layer, db/ of the repository.
pub mod PreparedReads
pub mod SelectCache
pub mod AtomicStatements
pub mod ListJoin
