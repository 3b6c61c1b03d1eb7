-- ===== src/Controller/Steady.antt =====
-- internal/controller/jprqtunnel_controller.go: a reconciliation and the requests that its own status
-- write causes.
pub mod Writes
pub mod Log
pub mod Uniform
pub mod Sequence
pub mod Reading
pub mod Moving
pub mod Weighing
pub mod Acting
pub mod Owner
pub mod Idle
pub mod Quiet
pub mod LostEdits
