-- ===== src/Preprocessing.antt =====
-- What the engine does with frames before inference (proctoring_engine/preprocessing).
pub mod Scheduler
pub mod RollingBuffer
pub mod Audio
pub mod Frames
