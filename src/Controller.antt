-- ===== src/Controller.antt =====
-- internal/controller: the JprqTunnel reconciler.
pub mod Conditions
pub mod Steady
pub mod Cluster
pub mod Classify
pub mod Pods
pub mod Run
pub mod Ends
pub mod Calls
pub mod Gate
pub mod Token
pub mod Backend
pub mod Actions
pub mod Settle
pub mod Reconcile
pub mod Json
pub mod Watches
pub mod Tests
