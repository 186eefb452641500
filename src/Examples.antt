-- ===== src/Examples.antt =====
-- The programs of examples/.
pub mod Tasks
pub mod Yields
