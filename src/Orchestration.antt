-- ===== src/Orchestration.antt =====
-- The engine's control plane (proctoring_engine/orchestration).
pub mod StateMachine
pub mod FlagPersistence
pub mod FrameDispatcher
pub mod AdminService
