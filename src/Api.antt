-- ===== src/Api.antt =====
-- api/v1alpha1: the JprqTunnel resource.
mod Enums
mod Types
pub mod Admission
pub use Enums.*
pub use Types.*
