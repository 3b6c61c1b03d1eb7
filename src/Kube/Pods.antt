-- ===== src/Kube/Pods.antt =====
-- The parts of `corev1.Pod` that the controller writes into an agent pod, and those that it reads.
use jprq_bek.Base.{ℕ, String, List, Option, Bool, ℤ}

pub record EnvVar : Type 0 where
  pub name : String
  pub value : String

pub record VolumeMount : Type 0 where
  pub name : String
  pub mount_path : String
  pub read_only : Bool

-- `corev1.Probe` with an `HTTPGetAction`.
pub record HttpProbe : Type 0 where
  pub path : String
  pub port : ℕ
  pub host : String
  pub period_seconds : ℕ

-- `corev1.SecurityContext` of a container.
pub record SecurityContext : Type 0 where
  pub allow_privilege_escalation : Option Bool
  pub read_only_root_filesystem : Option Bool
  pub drop_capabilities : List String

-- `corev1.ResourceRequirements`, with the quantities as they are written.
pub record Resources : Type 0 where
  pub requests : List (String × String)
  pub limits : List (String × String)

pub record Container : Type 0 where
  pub name : String
  pub image : String
  pub image_pull_policy : String
  pub env : List EnvVar
  pub volume_mounts : List VolumeMount
  pub readiness_probe : Option HttpProbe
  pub security_context : Option SecurityContext
  pub resources : Resources

-- `corev1.KeyToPath`
pub record KeyToPath : Type 0 where
  pub key : String
  pub path : String

-- `corev1.Volume` with a `SecretVolumeSource`.
pub record SecretVolume : Type 0 where
  pub name : String
  pub secret_name : String
  pub items : List KeyToPath
  pub default_mode : Option ℕ

-- `corev1.PodSecurityContext`
pub record PodSecurityContext : Type 0 where
  pub run_as_non_root : Option Bool
  pub run_as_user : Option ℕ
  pub fs_group : Option ℕ
  pub seccomp_profile : String

pub record PodSpec : Type 0 where
  pub restart_policy : String
  pub termination_grace_period_seconds : Option ℕ
  pub automount_service_account_token : Option Bool
  pub security_context : Option PodSecurityContext
  pub containers : List Container
  pub volumes : List SecretVolume

-- `corev1.ContainerState`: `running` says that `State.Running` is not nil, and `terminated` is the
-- exit code of a `State.Terminated` that is not nil.
pub record ContainerState : Type 0 where
  pub running : Bool
  pub terminated : Option ℤ

pub record ContainerStatus : Type 0 where
  pub name : String
  pub ready : Bool
  pub restart_count : ℤ
  pub state : ContainerState
  pub last_termination_state : ContainerState

-- `metav1.OwnerReference` that marks a controller.
pub record OwnerReference : Type 0 where
  pub kind : String
  pub name : String

pub record Pod : Type 0 where
  pub name : String
  pub namespace : String
  pub labels : List (String × String)
  pub annotations : List (String × String)
  pub deletion_timestamp : Option ℕ
  pub owner_references : List OwnerReference
  pub spec : PodSpec
  pub container_statuses : List ContainerStatus
