-- ===== src/Agent/Tests.antt =====
-- cli: the theorems of Agent, at a sample host and a sample session.
pub mod Files
pub mod Sessions
pub mod InPod
