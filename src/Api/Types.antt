-- ===== src/Api/Types.antt =====
-- api/v1alpha1/jprqtunnel_types.go: the fields of a JprqTunnel.
use jprq_bek.Base.{ℕ, String, List, Option, ℤ}
use jprq_bek.Api.Enums.{Phase, ConditionType, ConditionStatus, Reason, CollisionBehavior}

-- `intstr.IntOrString`
pub data IntOrString : Type 0 where
  int_val : ℤ → IntOrString
  str_val : String → IntOrString

pub record BackendRef : Type 0 where
  pub namespace : String
  pub service_name : String
  pub port : IntOrString

pub record SecretKeyRef : Type 0 where
  pub name : String
  pub key : String

pub record CnameSpec : Type 0 where
  pub hostname : String
  pub cloudflare_token_secret : SecretKeyRef

pub record JprqTunnelSpec : Type 0 where
  pub subdomain : String
  pub subdomain_collision_behavior : CollisionBehavior
  pub backend : BackendRef
  pub jprq_token_secret : SecretKeyRef
  pub cname : Option CnameSpec

-- `metav1.Condition`. The controller leaves the generation and the time at zero.
pub record Condition : Type 0 where
  pub type_of : ConditionType
  pub status : ConditionStatus
  pub observed_generation : ℤ
  pub last_transition_time : ℕ
  pub reason : Reason
  pub message : String

pub record JprqTunnelStatus : Type 0 where
  pub phase : Phase
  pub url : String
  pub assigned_subdomain : String
  pub backend_address : String
  pub pod_name : String
  pub last_exit_code : Option ℤ
  pub last_failure_message : String
  pub restart_count : ℤ
  pub observed_generation : ℤ
  pub conditions : List Condition

-- The parts of `metav1.ObjectMeta` that the controller reads: `deletion_timestamp` is `none` where Go
-- has the zero time.
pub record JprqTunnel : Type 0 where
  pub name : String
  pub generation : ℤ
  pub deletion_timestamp : Option ℕ
  pub spec : JprqTunnelSpec
  pub status : JprqTunnelStatus
