-- ===== src/Realtime.antt =====
-- The realtime events of the generator: realtime.go and what it validates.
pub mod Values
pub mod Topics
pub mod Broker
pub mod Hub
pub mod Publish
pub mod AtomicEvents
