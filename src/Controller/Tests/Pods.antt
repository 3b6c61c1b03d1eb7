-- ===== src/Controller/Tests/Pods.antt =====
-- internal/controller/pod.go: the pod of the sample tunnel.
use jprq_bek.Base.{
  itoa, itoa_int, print_from, arith, eq_refl, ◌≡◌, ◌≢◌, refl, ℕ, List, [], ◌∷◌, ok, trim_space,
  trim_left, trim_right,
}
use jprq_bek.Api.{pending, JprqTunnel}
use jprq_bek.Kube.{Pod, missing}
use jprq_bek.Controller.Pods.{AgentPodConfig, unowned_pod, desired_pod}
use jprq_bek.Controller.Pods.Agreement.{AgentFits, desired_pod-AgentFits}
use jprq_bek.Controller.Pods.SpecHash.{is_current-spec}
use jprq_bek.Controller.Run.{Env}
use jprq_bek.Controller.Token.Evidence.{HasToken}
use jprq_bek.Controller.Backend.{
  BackendInfo, any_ready, backend_info, resolve_service_port, port_numbered,
}
use jprq_bek.Controller.Backend.Evidence.{HasBackend}
use jprq_bek.Controller.Actions.{agent_config}
use jprq_bek.Base.{pos}
use jprq_bek.Controller.Tests.Samples.{
  sample_env, sample_ext, sample_tunnel, sample_secret, sample_service, sample_slices,
}

abbrev pub new_env : Env
new_env = sample_env pending missing

abbrev pub new_token : List ℕ
new_token = b't' ∷ b'k' ∷ []

abbrev pub front_backend : BackendInfo
front_backend = record { host = "front.web.svc"; port = pos 80; address = "front.web.svc:80" }

pub front_backend_checked : HasBackend new_env (sample_tunnel pending) front_backend
unfolding resolve_service_port port_numbered any_ready backend_info itoa_int itoa print_from
front_backend_checked = record {
  svc = sample_service;
  port = pos 80;
  slices = sample_slices;
  read = refl;
  resolved = refl;
  listed = refl;
  serving = refl;
  info = refl;
}

abbrev new_config : AgentPodConfig
new_config = agent_config new_env (sample_tunnel pending) "shop" front_backend new_token

abbrev pub new_pod : Pod
new_pod = record (unowned_pod sample_ext (sample_tunnel pending) new_config) {
  owner_references = record { kind = "JprqTunnel"; name = "shop" } ∷ [];
}

new_token_trimmed : trim_space new_token ≡ new_token
unfolding trim_space trim_left trim_right
new_token_trimmed = refl

not_nil : new_token ≢ []
not_nil e = cc

pub new_token_checked : HasToken new_env (sample_tunnel pending) new_token
new_token_checked = record {
  secret = sample_secret;
  read = refl;
  held = refl;
  not_blank = rw new_token_trimmed not_nil;
}

pub new_pod_built : desired_pod sample_ext (sample_tunnel pending) new_config ≡ ok new_pod
unfolding desired_pod
new_pod_built = refl

desired_pod-AgentFits_example : AgentFits new_env (sample_tunnel pending) new_pod
desired_pod-AgentFits_example =
    desired_pod-AgentFits new_env (sample_tunnel pending) "shop" front_backend new_token new_pod
      new_token_checked new_pod_built

-- A tunnel of the same spec, under another name.
abbrev other_tunnel : JprqTunnel
other_tunnel = record (sample_tunnel pending) { name = "stand" }

abbrev other_pod : Pod
other_pod = record (unowned_pod sample_ext other_tunnel new_config) {
  owner_references = record { kind = "JprqTunnel"; name = "stand" } ∷ [];
}

other_pod_built : desired_pod sample_ext other_tunnel new_config ≡ ok other_pod
unfolding desired_pod
other_pod_built = refl

is_current-spec_example : new_pod.spec ≡ other_pod.spec
unfolding agent_config
is_current-spec_example =
    is_current-spec new_env (sample_tunnel pending) other_tunnel new_config new_config new_pod
      other_pod (omega arith) (omega arith) (λ same. refl) new_pod_built other_pod_built (eq_refl _)
