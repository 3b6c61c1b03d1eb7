-- ===== src/Kube/Objects.antt =====
-- The fields of Secrets, Services and EndpointSlices that the controller reads.
use jprq_bek.Base.{ℕ, String, List, Option, Bool, ℤ}

-- `corev1.Secret`: the data maps a key to bytes.
pub record Secret : Type 0 where
  pub name : String
  pub namespace : String
  pub data_of : List (String × List ℕ)

-- `corev1.ServicePort`
pub record ServicePort : Type 0 where
  pub name : String
  pub port : ℤ

-- `corev1.Service`
pub record Service : Type 0 where
  pub name : String
  pub namespace : String
  pub ports : List ServicePort

-- `discoveryv1.Endpoint`: `ready` is `endpoint.Conditions.Ready`, a `*bool`.
pub record Endpoint : Type 0 where
  pub ready : Option Bool

-- `discoveryv1.EndpointSlice`
pub record EndpointSlice : Type 0 where
  pub endpoints : List Endpoint
