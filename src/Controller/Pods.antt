-- ===== src/Controller/Pods.antt =====
-- internal/controller/pod.go: the agent pod that a tunnel wants.
pub mod Agreement
pub mod SpecHash
use Prim.Native.String.{slice}
use jprq_bek.Base.{
  ℕ, String, true, false, some, none, List, [], ◌∷◌, ℤ, itoa_int, ◌<>◌, Result, ok, err,
}
use jprq_bek.Api.{JprqTunnel}
use jprq_bek.Kube.{External, Pod, PodSpec, Container, EnvVar, OwnerReference}
use jprq_bek.Controller.Classify.{agent_container_name}
use jprq_bek.Controller.Json.{Member, text, number, json_object}

abbrev pub spec_hash_annotation : String
spec_hash_annotation = "jprq.io/spec-hash"

abbrev pub tunnel_label : String
tunnel_label = "jprq.io/tunnel"

abbrev agent_app_name : String
agent_app_name = "jprq-agent"

abbrev pub token_volume_name : String
token_volume_name = "token"

abbrev pub token_mount_path : String
token_mount_path = "/etc/jprq"

abbrev pub health_port : ℕ
health_port = 9000

abbrev pub health_addr : String
health_addr = ":9000"

abbrev pub protocol_http : String
protocol_http = "http"

pub record AgentPodConfig : Type 0 where
  pub image : String
  pub operator_namespace : String
  pub backend_host : String
  pub backend_port : ℤ
  pub subdomain : String
  pub secret_name : String
  pub secret_key : String
  pub token_digest : String

unfoldable pub pod_name : String → String
pod_name tunnel_name = "jprq-" <> tunnel_name

-- `payload` in `specHash`.
abbrev pub payload : AgentPodConfig → List Member
payload c =
    text "image" c.image
    ∷ text "protocol" protocol_http
    ∷ text "subdomain" c.subdomain
    ∷ text "backendHost" c.backend_host
    ∷ number "backendPort" c.backend_port
    ∷ text "secretName" c.secret_name
    ∷ text "secretKey" c.secret_key
    ∷ text "tokenDigest" c.token_digest
    ∷ text "healthAddr" health_addr
    ∷ []

abbrev env_var : String → String → EnvVar
env_var name value = record { name = name; value = value }

-- The container of `desiredPod`.
abbrev pub agent_container : AgentPodConfig → Container
agent_container cfg = record {
  name = agent_container_name;
  image = cfg.image;
  image_pull_policy = "IfNotPresent";
  env =
      env_var "JPRQ_PROTOCOL" protocol_http
      ∷ env_var "JPRQ_BACKEND_HOST" cfg.backend_host
      ∷ env_var "JPRQ_BACKEND_PORT" (itoa_int cfg.backend_port)
      ∷ env_var "JPRQ_SUBDOMAIN" cfg.subdomain
      ∷ env_var "JPRQ_TOKEN_FILE" (token_mount_path <> "/" <> cfg.secret_key)
      ∷ env_var "JPRQ_HEALTH_ADDR" health_addr
      ∷ [];
  volume_mounts =
      record { name = token_volume_name; mount_path = token_mount_path; read_only = true } ∷ [];
  readiness_probe =
      some (record { path = "/healthz"; port = health_port; host = ""; period_seconds = 10 });
  security_context = some (record {
    allow_privilege_escalation = some false;
    read_only_root_filesystem = some true;
    drop_capabilities = "ALL" ∷ [];
  });
  resources = record {
    requests = ("cpu", "10m") ∷ ("memory", "32Mi") ∷ [];
    limits = ("memory", "64Mi") ∷ [];
  };
}

-- The spec of `desiredPod`.
abbrev pub agent_pod_spec : AgentPodConfig → PodSpec
agent_pod_spec cfg = record {
  restart_policy = "Always";
  termination_grace_period_seconds = some 5;
  automount_service_account_token = some false;
  security_context = some (record {
    run_as_non_root = some true;
    run_as_user = some 65532;
    fs_group = some 65532;
    seccomp_profile = "RuntimeDefault";
  });
  containers = agent_container cfg ∷ [];
  volumes =
      record {
        name = token_volume_name;
        secret_name = cfg.secret_name;
        items = record { key = cfg.secret_key; path = cfg.secret_key } ∷ [];
        default_mode = some 0o440;
      }
      ∷ [];
}

module _ (ext : External) where
  open ext use {sha256_hex, owner_references}

  -- `specHash`
  unfoldable pub spec_hash : AgentPodConfig → String
  unfolding json_object
  spec_hash c = slice (sha256_hex (json_object (payload c))) 0 16

  -- `tokenDigest`
  unfoldable pub token_digest : List ℕ → String
  token_digest token = sha256_hex token

  -- The pod that `desiredPod` builds before it sets the owner.
  abbrev pub unowned_pod : JprqTunnel → AgentPodConfig → Pod
  unowned_pod tunnel cfg = record {
    name = pod_name tunnel.name;
    namespace = cfg.operator_namespace;
    labels = ("app.kubernetes.io/name", agent_app_name) ∷ (tunnel_label, tunnel.name) ∷ [];
    annotations = (spec_hash_annotation, spec_hash cfg) ∷ [];
    deletion_timestamp = none;
    owner_references = [];
    spec = agent_pod_spec cfg;
    container_statuses = [];
  }

  abbrev pub with_owner : Pod → Result (List OwnerReference) → Result Pod
  with_owner pod (ok refs) = ok (record pod { owner_references = refs })
  with_owner pod (err e) = err ("setting owner reference: " <> e)

  -- `desiredPod`
  unfoldable pub desired_pod : JprqTunnel → AgentPodConfig → Result Pod
  unfolding pod_name spec_hash
  desired_pod tunnel cfg =
      let pod = unowned_pod tunnel cfg in with_owner pod (owner_references tunnel pod)
