-- ===== src/Kube/Externals.antt =====
-- What the program calls and does not implement. Each function is arbitrary; a theorem that relies on
-- its documented behaviour takes that behaviour as a hypothesis.
use jprq_bek.Base.{ℕ, String, List, Bool, Option, Result}
use jprq_bek.Api.{JprqTunnel, JprqTunnelStatus, Condition}
use jprq_bek.Kube.Objects.{Secret, Service, EndpointSlice}
use jprq_bek.Kube.Pods.{Pod, OwnerReference}

-- Library functions.
pub record External : Type 0 where
  -- crypto/sha256 and encoding/hex: the digest of some bytes, in hexadecimal
  pub sha256_hex : List ℕ → String
  -- `%q` of fmt, on a text
  pub quoted : String → String
  -- `NamespacedName.String`, of a namespace and a name
  pub namespaced : String → String → String
  -- `controllerutil.SetControllerReference`: the owner references that the pod gets
  pub owner_references : JprqTunnel → Pod → Result (List OwnerReference)
  -- `apimeta.SetStatusCondition`
  pub set_status_condition : Condition → List Condition → List Condition
  -- `apiequality.Semantic.DeepEqual`, on two statuses
  pub deep_equal : JprqTunnelStatus → JprqTunnelStatus → Bool

-- The answer to a Get. `missing` is an error that `apierrors.IsNotFound` accepts.
pub data Fetched (A : Type 0) : Type 0 where
  found : A → Fetched A
  missing : Fetched A
  refused : String → Fetched A

-- The answer to a Delete.
pub data Deletion : Type 0 where
  deleted : Deletion
  already_gone : Deletion
  not_deleted : String → Deletion

-- The answer to `GET` of the remote configuration.
pub data HttpAnswer : Type 0 where
  bad_request : String → HttpAnswer
  unreachable : String → HttpAnswer
  responded : ℕ → String → Result String → HttpAnswer

-- The API server's answers while one request is reconciled, and those of the network. `none` is success
-- for a Create and a Patch.
pub record Answers : Type 0 where
  pub get_tunnel : String → Fetched JprqTunnel
  pub get_pod : String → String → Fetched Pod
  pub get_secret : String → String → Fetched Secret
  pub get_service : String → String → Fetched Service
  pub list_slices : String → String → Result (List EndpointSlice)
  pub create_pod : Pod → Option String
  pub delete_pod : Pod → Deletion
  pub patch_status : JprqTunnel → Option String
  pub get_config : String → HttpAnswer
