-- ===== src/Kube.antt =====
-- Kubernetes as the controller sees it: the objects that it reads and writes, and the answers of the
-- API server.
mod Objects
mod Pods
mod Externals
pub use Objects.*
pub use Pods.*
pub use Externals.*
