-- ===== src/Evidence.antt =====
-- The evidence store's upkeep (proctoring_engine/evidence).
pub mod Retention
pub mod StorageKey
