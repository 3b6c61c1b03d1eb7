-- ===== src/Controller/Pods/Agreement.antt =====
-- internal/controller/pod.go, `desiredPod`, and internal/controller/jprqtunnel_controller.go,
-- `checkToken` and `agentConfig`: what the agent is told agrees with what is mounted, probed and checked.
use mathlib.Core.Path.{subst}
use mathlib.Core.List.{Memᴰ}
use jprq_bek.Base.{
  ap, sym, true, ◌≡◌, ◌≢◌, refl, ℕ, String, ◌<>◌, List, [], ◌∷◌, some, Result, ok, err, lookup,
  trim_space, itoa, print_from,
}
use jprq_bek.Api.{JprqTunnel}
use jprq_bek.Kube.{
  External, Pod, Container, VolumeMount, SecretVolume, KeyToPath, HttpProbe, OwnerReference, Secret,
  found,
}
use jprq_bek.Controller.Pods.{
  AgentPodConfig, unowned_pod, desired_pod, with_owner, agent_container, token_mount_path,
  token_volume_name, health_port,
}
use jprq_bek.Controller.Run.{Env}
use jprq_bek.Controller.Token.{secret_key_of}
use jprq_bek.Controller.Token.Evidence.{HasToken}
use jprq_bek.Controller.Backend.{BackendInfo}
use jprq_bek.Controller.Actions.{agent_config}

-- In this container of this pod, the file holds what the Secret has under the key.
pub record FileHolds (pod : Pod) (container : Container) (file secret_name key : String)
    : Type 0 where
  pub mount : VolumeMount
  pub volume : SecretVolume
  pub item : KeyToPath
  pub mounted : Memᴰ mount container.volume_mounts
  pub declared : Memᴰ volume pod.spec.volumes
  pub projected : Memᴰ item volume.items
  pub same_volume : mount.name ≡ volume.name
  pub from_secret : volume.secret_name ≡ secret_name
  pub from_key : item.key ≡ key
  pub at_path : file ≡ mount.mount_path <> "/" <> item.path

-- The agent finds a token that was checked, and is probed where it listens.
pub record AgentFits (env : Env) (tunnel : JprqTunnel) (pod : Pod) : Type 0 where
  pub container : Container
  pub token_file : String
  pub secret : Secret
  pub token : List ℕ
  pub probe : HttpProbe
  pub only_container : pod.spec.containers ≡ container ∷ []
  pub told : Memᴰ (record { name = "JPRQ_TOKEN_FILE"; value = token_file }) container.env
  pub holds :
      FileHolds pod container token_file tunnel.spec.jprq_token_secret.name
        (secret_key_of tunnel.spec.jprq_token_secret)
  pub read :
      env.api.get_secret env.operator_namespace tunnel.spec.jprq_token_secret.name ≡ found secret
  pub held : lookup (secret_key_of tunnel.spec.jprq_token_secret) secret.data_of ≡ some token
  pub not_blank : trim_space token ≢ []
  pub same_namespace : pod.namespace ≡ env.operator_namespace
  pub probed : container.readiness_probe ≡ some probe
  pub listens :
      Memᴰ (record { name = "JPRQ_HEALTH_ADDR"; value = ":" <> itoa probe.port }) container.env

abbrev owned : Pod → List OwnerReference → Pod
owned pod refs = record pod { owner_references = refs }

ok_injective : (a b : Pod) → ok a ≡ ok b → a ≡ b
ok_injective a b h = cc

pub with_owner-owned :
    (ext : External) (pod desired : Pod) (answer : Result (List OwnerReference))
    → with_owner ext pod answer ≡ ok desired
    → (refs : List OwnerReference) × (owned pod refs ≡ desired)
with_owner-owned ext pod desired (ok refs) h = (refs, ok_injective (owned pod refs) desired h)
with_owner-owned ext pod desired (err e) h = absurd (error_not_ok _ desired h)
  where
    error_not_ok : (e : String) (a : Pod) → err e ≡ ok a → ⊥
    error_not_ok e a h = cc

-- The pod has the one container that the configuration asks for.
pub desired_pod-container :
    (ext : External) (tunnel : JprqTunnel) (cfg : AgentPodConfig) (pod : Pod)
    → desired_pod ext tunnel cfg ≡ ok pod
    → pod.spec.containers ≡ agent_container cfg ∷ []
unfolding desired_pod
desired_pod-container ext tunnel cfg pod built =
    let (refs, e) =
      with_owner-owned ext (unowned_pod ext tunnel cfg) pod
        (ext.owner_references tunnel (unowned_pod ext tunnel cfg)) built in
    ap (λ p. p.spec.containers) (sym e)

-- The tunnel's pod agrees with its Secret. A pod that is built with a token that passed the check is in
-- the operator's namespace and has one container; the file that this container is told to read the
-- token from is the projection of the very key of the very Secret that was checked, which holds a token
-- that is not blank; and the readiness probe asks the port on which the agent is told to listen.
pub desired_pod-AgentFits :
    (env : Env) (tunnel : JprqTunnel) (assigned : String) (backend : BackendInfo) (token : List ℕ)
    (pod : Pod)
    → HasToken env tunnel token
    → desired_pod env.ext tunnel (agent_config env tunnel assigned backend token) ≡ ok pod
    → AgentFits env tunnel pod
unfolding desired_pod agent_config itoa print_from
desired_pod-AgentFits env tunnel assigned backend token pod checked built =
    let cfg = agent_config env tunnel assigned backend token in
    let (refs, e) =
      with_owner-owned env.ext (unowned_pod env.ext tunnel cfg) pod
        (env.ext.owner_references tunnel (unowned_pod env.ext tunnel cfg)) built in
    subst (AgentFits env tunnel) e (record {
      container = agent_container cfg;
      token_file = token_mount_path <> "/" <> cfg.secret_key;
      secret = checked.secret;
      token = token;
      probe = record { path = "/healthz"; port = health_port; host = ""; period_seconds = 10 };
      only_container = refl;
      told = Memᴰ.tail (Memᴰ.tail (Memᴰ.tail (Memᴰ.tail (Memᴰ.head refl))));
      holds = record {
        mount = record {
          name = token_volume_name;
          mount_path = token_mount_path;
          read_only = true;
        };
        volume = record {
          name = token_volume_name;
          secret_name = cfg.secret_name;
          items = record { key = cfg.secret_key; path = cfg.secret_key } ∷ [];
          default_mode = some 0o440;
        };
        item = record { key = cfg.secret_key; path = cfg.secret_key };
        mounted = Memᴰ.head refl;
        declared = Memᴰ.head refl;
        projected = Memᴰ.head refl;
        same_volume = refl;
        from_secret = refl;
        from_key = refl;
        at_path = refl;
      };
      read = checked.read;
      held = checked.held;
      not_blank = checked.not_blank;
      same_namespace = refl;
      probed = refl;
      listens = Memᴰ.tail (Memᴰ.tail (Memᴰ.tail (Memᴰ.tail (Memᴰ.tail (Memᴰ.head refl)))));
    })
