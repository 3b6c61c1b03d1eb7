-- ===== src/Controller/Tests.antt =====
-- internal/controller: the theorems of Controller, at sample objects.
pub mod Samples
pub mod Libraries
pub mod Requests
pub mod Parts
pub mod Watches
pub mod Pods
pub mod Worlds
pub mod Steady
pub mod Clusters
pub mod Refusals
pub mod Patterns
pub mod Admission
