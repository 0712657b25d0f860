-- ===== src/Lti.antt =====
-- The LTI launch (proctoring_engine/lti).
pub mod LaunchStates
pub mod Roles
