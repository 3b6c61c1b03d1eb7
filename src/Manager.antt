-- ===== src/Manager.antt =====
-- cmd/main.go: the manager's options, and how it is put together and started.
pub mod Wiring
pub mod Tests
use jprq_bek.Base.{
  ℕ, String, ◌==◌, Bool, true, false, List, [], ◌∷◌, ◌++◌, Option, none, some, if◌then◌else◌, ℤ,
  pos,
}
use jprq_bek.Kube.{External, Answers}
use jprq_bek.JprqConfig.{Resolver, default_url, new_resolver}
use jprq_bek.Controller.Run.{Env}
use jprq_bek.Controller.Watches.{Index, setup_with_manager}

-- The command line, as package flag has parsed it.
pub record Options : Type 0 where
  pub metrics_addr : String
  pub probe_addr : String
  pub enable_leader_election : Bool
  pub secure_metrics : Bool
  pub webhook_cert_path : String
  pub webhook_cert_name : String
  pub webhook_cert_key : String
  pub webhook_port : ℤ
  pub metrics_cert_path : String
  pub metrics_cert_name : String
  pub metrics_cert_key : String
  pub enable_http2 : Bool
  pub agent_image : String
  pub operator_namespace : String
  pub jprq_config_url : String
  pub jprq_domain : String

-- The defaults of the flags.
abbrev pub default_options : Options
default_options = record {
  metrics_addr = "0";
  probe_addr = ":8081";
  enable_leader_election = false;
  secure_metrics = true;
  webhook_cert_path = "";
  webhook_cert_name = "tls.crt";
  webhook_cert_key = "tls.key";
  webhook_port = pos 9443;
  metrics_cert_path = "";
  metrics_cert_name = "tls.crt";
  metrics_cert_key = "tls.key";
  enable_http2 = false;
  agent_image = "ghcr.io/muzaffarnurillaew/jprq-agent:v0.1.0";
  operator_namespace = "jprq-system";
  jprq_config_url = default_url;
  jprq_domain = "";
}

-- `tls.Config`, as far as it is changed here.
pub record TlsConfig : Type 0 where
  pub next_protos : List String

abbrev pub TlsOpt : Type 0
TlsOpt = TlsConfig → TlsConfig

-- `disableHTTP2`
abbrev pub disable_http2 : TlsOpt
disable_http2 c = record c { next_protos = "http/1.1" ∷ [] }

unfoldable pub tls_opts : Options → List TlsOpt
tls_opts o = if o.enable_http2 then [] else disable_http2 ∷ []

-- A certificate that is read from files: "" means that it is not.
pub record CertFiles : Type 0 where
  pub cert_dir : String
  pub cert_name : String
  pub key_name : String

abbrev cert_files : String → String → String → CertFiles
cert_files path name key =
    if path == ""
    then record { cert_dir = ""; cert_name = ""; key_name = "" }
    else record { cert_dir = path; cert_name = name; key_name = key }

-- `webhookServerOptions`
pub record WebhookOptions : Type 0 where
  pub opts : List TlsOpt
  pub port : ℤ
  pub cert : CertFiles

unfoldable pub webhook_options : Options → WebhookOptions
unfolding tls_opts
webhook_options o = record {
  opts = tls_opts o;
  port = o.webhook_port;
  cert = cert_files o.webhook_cert_path o.webhook_cert_name o.webhook_cert_key;
}

-- `metricsServerOptions`: `authorized` says that `FilterProvider` is set.
pub record MetricsOptions : Type 0 where
  pub bind_address : String
  pub secure_serving : Bool
  pub opts : List TlsOpt
  pub authorized : Bool
  pub cert : CertFiles

unfoldable pub metrics_options : Options → MetricsOptions
unfolding tls_opts
metrics_options o = record {
  bind_address = o.metrics_addr;
  secure_serving = o.secure_metrics;
  opts = tls_opts o;
  authorized = o.secure_metrics;
  cert = cert_files o.metrics_cert_path o.metrics_cert_name o.metrics_cert_key;
}

-- `ctrl.Options`. Pods and Secrets are cached for the namespaces listed, all else cluster-wide.
pub record ManagerOptions : Type 0 where
  pub metrics : MetricsOptions
  pub webhook : WebhookOptions
  pub probe_address : String
  pub leader_election : Bool
  pub leader_election_id : String
  pub pod_namespaces : List String
  pub secret_namespaces : List String

unfoldable pub manager_options : Options → ManagerOptions
unfolding metrics_options webhook_options
manager_options o = record {
  metrics = metrics_options o;
  webhook = webhook_options o;
  probe_address = o.probe_addr;
  leader_election = o.enable_leader_election;
  leader_election_id = "7c354bda.jprq.io";
  pod_namespaces = o.operator_namespace ∷ [];
  secret_namespaces = o.operator_namespace ∷ [];
}

-- The reconciler, in a world, and the state of its resolver.
unfoldable pub reconciler : Options → External → Answers → Env
reconciler o ext api = record {
  ext = ext;
  api = api;
  agent_image = o.agent_image;
  operator_namespace = o.operator_namespace;
}

unfoldable pub first_resolver : Options → Resolver
unfolding new_resolver
first_resolver o = new_resolver o.jprq_config_url o.jprq_domain

-- The errors of controller-runtime, in the order in which they can come.
pub record Startup : Type 0 where
  pub new_manager : ManagerOptions → Option String
  pub index_field : Index → Option String
  pub complete : Option String
  pub healthz_check : Option String
  pub readyz_check : Option String
  pub run : Option String

pub data Progress : Type 0 where
  failed_manager failed_controller failed_healthz failed_readyz failed_run finished : Progress

-- The first error of a list of steps decides how far the start came.
unfoldable pub first_failure : List (Option String × Progress) → Progress
first_failure [] = finished
first_failure ((some e, progress) ∷ steps) = progress
first_failure ((none, progress) ∷ steps) = first_failure steps

-- `main`, behind the parsing of the flags.
unfoldable pub start_manager : Options → Startup → Progress
unfolding first_failure manager_options setup_with_manager
start_manager o s = first_failure (
    (s.new_manager (manager_options o), failed_manager)
    ∷ (
      setup_with_manager o.operator_namespace o.agent_image true s.index_field s.complete,
      failed_controller,
    )
    ∷ (s.healthz_check, failed_healthz)
    ∷ (s.readyz_check, failed_readyz)
    ∷ (s.run, failed_run)
    ∷ [])

-- The exit code of the process.
unfoldable pub exit_code : Progress → ℕ
exit_code finished = 0
exit_code _ = 1
