-- ===== src/Agent.antt =====
-- cli: the agent, which runs in a pod of its own and holds one tunnel open.
pub mod ExitCodes
pub mod ServerError
pub mod Host
pub mod Config
pub mod Number
pub mod Command
pub mod Client
pub mod Tests
