-- ===== src/Agent/Command/Environment.antt =====
-- cli/main.go: what the agent does in the environment of the container that the controller asks for.
use text.Mathlib.TextLemmas.{append-eq-nil_iff}
use jprq_bek.Base.{
  ◌≡◌, ◌≢◌, refl, sym, ap, ◌∙◌, ℕ, ◌<◌, ◌^◌, String, ◌<>◌, ◌==◌, eq_iff, true, false, if◌then◌else◌,
  List, [], ◌∷◌, none, some, ok, err, ℤ, pos, itoa_int, trim_space, arith,
}
use jprq_bek.Agent.ExitCodes.{exit_config_failure}
use jprq_bek.Kube.{Container, EnvVar}
use jprq_bek.Controller.Pods.{agent_container, AgentPodConfig, token_mount_path}
use jprq_bek.Agent.Host.{Host, Disk, Remote, response}
use jprq_bek.Agent.Config.{remote_config, load}
use jprq_bek.Agent.Config.TokenFile.{load-token_file}
use jprq_bek.Agent.Number.{atoi}
use jprq_bek.Agent.Number.RoundTrip.{atoi-itoa_int}
use jprq_bek.Agent.Command.{
  Flags, ended, Launch, running, main, check_port, launch, with_target, dispatch, no_flags,
  parse_flags, is_positive,
}

-- The value of a variable in a container: "" if it is not set.
abbrev pub lookup_env : String → List EnvVar → String
lookup_env name [] = ""
lookup_env name (v ∷ vars) = if v.name == name then v.value else lookup_env name vars

atoi-nil : atoi "" ≡ pos 0
unfolding atoi
atoi-nil = refl

not_empty : (arg : String) (n : ℕ) → atoi arg ≡ pos n → 0 < n → (arg == "") ≡ false
not_empty arg n a h = ground (arith, eq_iff arg "", atoi-nil)

positive_port : (n : ℕ) → 0 < n → is_positive (pos n) ≡ true
positive_port n h = ground arith

-- The kubelet runs the container: the agent has the container's environment, and can read the token
-- from the file that the environment names.
pub record RunsIn (host : Host) (disk : Disk) (container : Container) (token : List ℕ)
    : Type 0 where
  pub environment : (name : String) → host.getenv name ≡ lookup_env name container.env
  pub readable : host.read_error (lookup_env "JPRQ_TOKEN_FILE" container.env) ≡ none
  pub mounted : disk (lookup_env "JPRQ_TOKEN_FILE" container.env) ≡ some token

-- What the agent starts in that pod.
abbrev pub told : Remote → List ℕ → String → String → ℤ → Launch
told remote token assigned host port = record {
  client = record {
    config = record { remote = remote; auth_token = trim_space token };
    protocol = "http";
    subdomain = assigned;
    cname = "";
    backend_host = host;
  };
  port = port;
  debug = false;
}

-- The agent has the environment of the container.
abbrev pub HasEnvironment : Host → Container → Type 0
HasEnvironment host container = (name : String) → host.getenv name ≡ lookup_env name container.env

module _ (host : Host) (disk : Disk) (cfg : AgentPodConfig)
    (environment : HasEnvironment host (agent_container cfg)) where
  abbrev pub told_flags : Flags
  told_flags = record no_flags { subdomain = cfg.subdomain }

  dispatch_lem :
      (program arg : String) (n : ℕ)
      → atoi arg ≡ pos n
      → 0 < n
      → dispatch host (program ∷ []) "http" arg disk
        ≡ with_target host told_flags (running ("http", pos n), disk)
  unfolding dispatch parse_flags
  dispatch_lem program arg n a pos_n = rw (arg_set, environment "JPRQ_SUBDOMAIN", a)
    where
      arg_set : (arg == "") ≡ false
      arg_set = not_empty arg n a pos_n

  check_port_lem :
      (n : ℕ)
      → 0 < n
      → with_target host told_flags (running ("http", pos n), disk)
        ≡ (launch host told_flags ("http", pos n) (load host disk), disk)
  unfolding with_target check_port
  check_port_lem n q = rw (positive_port n q)

  -- What the agent does depends on whether its configuration can be loaded.
  pub main_lem :
      (program : String) (n : ℕ)
      → cfg.backend_port ≡ pos n
      → 0 < n
      → n < 2 ^ 63
      → main host (program ∷ []) disk
        ≡ (launch host told_flags ("http", pos n) (load host disk), disk)
  unfolding main
  main_lem program n p q r =
      rw (environment "JPRQ_PROTOCOL", environment "JPRQ_BACKEND_PORT")
        (dispatch_lem program (itoa_int cfg.backend_port) n
            (ap (λ z. atoi (itoa_int z)) p ∙ atoi-itoa_int (pos n) r) q
          ∙ check_port_lem n q)

  pub unloaded :
      (n : ℕ) (e : String)
      → load host disk ≡ err e
      → launch host told_flags ("http", pos n) (load host disk) ≡ ended exit_config_failure e
  unfolding launch
  unloaded n e h = rw h

module _ (host : Host) (disk : Disk) (cfg : AgentPodConfig) (token : List ℕ) (remote : Remote)
    (runs : RunsIn host disk (agent_container cfg) token)
    (served : host.get_remote remote_config ≡ response 200 (ok remote)) where
  token_path : String
  token_path = token_mount_path <> "/" <> cfg.secret_key

  token_path-ne-nil : token_path ≢ ""
  unfolding token_path
  token_path-ne-nil e = absurd (mount_path-ne-nil (append-eq-nil_iff.0 e).0)
    where
      mount_path-ne-nil : token_mount_path ≢ ""
      mount_path-ne-nil h = cc

  load_lem : load host disk ≡ ok (record { remote = remote; auth_token = trim_space token })
  unfolding token_path
  load_lem =
      load-token_file host disk token remote
        (λ e. token_path-ne-nil (sym (runs.environment "JPRQ_TOKEN_FILE") ∙ e))
        (ap host.read_error (runs.environment "JPRQ_TOKEN_FILE") ∙ runs.readable)
        (ap disk (runs.environment "JPRQ_TOKEN_FILE") ∙ runs.mounted) served

  abbrev pub launched : Launch
  launched = told remote token cfg.subdomain cfg.backend_host cfg.backend_port

  pub launch_lem :
      (n : ℕ)
      → cfg.backend_port ≡ pos n
      → launch host (record no_flags { subdomain = cfg.subdomain }) ("http", pos n) (load host disk)
        ≡ running launched
  unfolding launch
  launch_lem n p = rw (load_lem, runs.environment "JPRQ_BACKEND_HOST", p)
