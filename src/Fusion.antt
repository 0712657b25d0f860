-- ===== src/Fusion.antt =====
-- The fusion and flagging engine (proctoring_engine/fusion).
pub mod Types
pub mod Exemptions
pub mod BookSeverity
pub mod Aggregator
pub mod Streaks
pub mod Session
