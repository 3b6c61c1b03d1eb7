-- ===== src/Controller/Tests/Samples.antt =====
-- A tunnel, its world and its agent pod, for the tests of internal/controller.
use jprq_bek.Base.{ℕ, String, ◌<>◌, true, false, List, [], ◌∷◌, none, some, ok, pos, ℤ}
use jprq_bek.Api.{
  JprqTunnel, JprqTunnelSpec, JprqTunnelStatus, Phase, pending, collision_fail, int_val,
}
use jprq_bek.Kube.{
  External, Answers, Secret, Service, EndpointSlice, Pod, ContainerStatus, Fetched, found, deleted,
  responded,
}
use jprq_bek.JprqConfig.{Resolver}
use jprq_bek.Controller.Pods.{unowned_pod, AgentPodConfig}
use jprq_bek.Controller.Run.{Env, Run}

-- The digest stands for the length of its argument.
abbrev digest : List ℕ → String
digest [] = "d"
digest (b ∷ bs) = "d" <> digest bs

abbrev pub sample_ext : External
sample_ext = record {
  sha256_hex = digest;
  quoted = λ s. "\"" <> s <> "\"";
  namespaced = λ ns name. ns <> "/" <> name;
  owner_references = λ tunnel pod. ok (record { kind = "JprqTunnel"; name = tunnel.name } ∷ []);
  set_status_condition = λ c cs. c ∷ cs;
  deep_equal = λ s t. false;
}

abbrev pub sample_spec : JprqTunnelSpec
sample_spec = record {
  subdomain = "shop";
  subdomain_collision_behavior = collision_fail;
  backend = record { namespace = "web"; service_name = "front"; port = int_val (pos 80) };
  jprq_token_secret = record { name = "jprq"; key = "" };
  cname = none;
}

abbrev pub sample_status : Phase → JprqTunnelStatus
sample_status phase = record {
  phase = phase;
  url = "";
  assigned_subdomain = "";
  backend_address = "";
  pod_name = "";
  last_exit_code = none;
  last_failure_message = "";
  restart_count = pos 0;
  observed_generation = pos 1;
  conditions = [];
}

abbrev pub sample_tunnel : Phase → JprqTunnel
sample_tunnel phase = record {
  name = "shop";
  generation = pos 1;
  deletion_timestamp = none;
  spec = sample_spec;
  status = sample_status phase;
}

abbrev pub sample_resolver : Resolver
sample_resolver = record { url = ""; override = "jprq.site"; cached = "" }

abbrev pub sample_secret : Secret
sample_secret = record {
  name = "jprq";
  namespace = "operators";
  data_of = ("authToken", b't' ∷ b'k' ∷ []) ∷ [];
}

abbrev pub sample_service : Service
sample_service = record {
  name = "front";
  namespace = "web";
  ports =
      record { name = "metrics"; port = pos 9090 } ∷ record { name = "http"; port = pos 80 } ∷ [];
}

abbrev pub sample_slices : List EndpointSlice
sample_slices =
    record { endpoints = record { ready = some false } ∷ [] }
    ∷ record { endpoints = record { ready = none } ∷ [] }
    ∷ []

abbrev pub sample_answers : Phase → Fetched Pod → Answers
sample_answers phase pod = record {
  get_tunnel = λ name. found (sample_tunnel phase);
  get_pod = λ ns name. pod;
  get_secret = λ ns name. found sample_secret;
  get_service = λ ns name. found sample_service;
  list_slices = λ ns name. ok sample_slices;
  create_pod = λ pod. none;
  delete_pod = λ pod. deleted;
  patch_status = λ tunnel. none;
  get_config = λ url. responded 200 "200 OK" (ok "jprq.live");
}

abbrev pub sample_env : Phase → Fetched Pod → Env
sample_env phase pod = record {
  ext = sample_ext;
  api = sample_answers phase pod;
  agent_image = "agent:1";
  operator_namespace = "operators";
}

-- An agent container that has exited with this code and waits.
abbrev pub exited_status : ℤ → ContainerStatus
exited_status code = record {
  name = "agent";
  ready = false;
  restart_count = pos 2;
  state = record { running = false; terminated = none };
  last_termination_state = record { running = false; terminated = some code };
}

abbrev pub ready_status : ContainerStatus
ready_status = record {
  name = "agent";
  ready = true;
  restart_count = pos 0;
  state = record { running = true; terminated = none };
  last_termination_state = record { running = false; terminated = none };
}

abbrev pub sample_config : AgentPodConfig
sample_config = record {
  image = "agent:1";
  operator_namespace = "operators";
  backend_host = "front.web.svc";
  backend_port = pos 80;
  subdomain = "shop";
  secret_name = "jprq";
  secret_key = "authToken";
  token_digest = "ddd";
}

-- The agent pod that the sample asks for, with this container status.
abbrev pub sample_pod : ContainerStatus → Pod
sample_pod cs = record (unowned_pod sample_ext (sample_tunnel pending) sample_config) {
  container_statuses = cs ∷ [];
}

abbrev pub sample_run : Run
sample_run = record { status = sample_status pending; resolver = sample_resolver; calls = [] }
