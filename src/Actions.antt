-- ===== src/Actions.antt =====
-- Package actions: what a module's actions are declared with.
pub mod Roles
pub mod Status
pub mod Atomic
pub mod AtomicInput
