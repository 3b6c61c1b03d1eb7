-- ===== src/Agent/Command/InPod.antt =====
-- internal/controller/pod.go and cli/main.go together: the agent, in the pod that the controller builds.
use text.Mathlib.TextLemmas.{append-eq-nil_iff}
use mathlib.Core.Path.{subst}
use mathlib.Core.Option.{some-injective}
use jprq_bek.Base.{
  itoa, print_from, some, ◌≡◌, ◌≢◌, refl, sym, ap, ◌∙◌, ℕ, ◌<◌, ◌^◌, String, ◌<>◌, ◌==◌, eq_iff,
  false, List, [], ◌∷◌, ok, err, pos, arith,
}
use jprq_bek.Api.{JprqTunnel, CollisionBehavior}
use jprq_bek.Agent.ExitCodes.{exit_config_failure}
use jprq_bek.Controller.Classify.{classify_exit}
use jprq_bek.Kube.{HttpProbe, Pod, Container}
use jprq_bek.Controller.Pods.{desired_pod, agent_container, AgentPodConfig}
use jprq_bek.Controller.Pods.Agreement.{desired_pod-container}
use jprq_bek.Controller.Run.{Env}
use jprq_bek.Controller.Backend.{BackendInfo, backend_info}
use jprq_bek.Controller.Backend.Evidence.{HasBackend}
use jprq_bek.Controller.Actions.{agent_config}
use jprq_bek.Agent.Host.{Host, Disk, Remote, response}
use jprq_bek.Agent.Config.{remote_config, load}
use jprq_bek.Agent.Client.{health_address, TunnelOpened, servers_of}
use jprq_bek.Agent.Command.{ended, running, main}
use jprq_bek.Agent.Command.Environment.{
  lookup_env, RunsIn, told, HasEnvironment, main_lem, unloaded, launch_lem,
}

head_of : (c d : Container) → c ∷ [] ≡ d ∷ [] → c ≡ d
head_of c d h = cc

-- The name of a host behind which something stands.
named_host : (name rest : String) → rest ≢ "" → ((name <> rest) == "") ≡ false
named_host name rest h = ground (arith, eq_iff (name <> rest) "", no_rest)
  where
    no_rest : (name <> rest) ≢ ""
    no_rest e = h (append-eq-nil_iff.0 e).1

abbrev dot : String
dot = "."

dotted : (rest : String) → ("." <> rest) ≢ ""
dotted rest e = not_dot (append-eq-nil_iff.0 e).0
  where
    not_dot : dot ≢ ""
    not_dot h = cc

-- The agent dials the address that the status of the tunnel shows.
dials_backend :
    (env : Env) (tunnel : JprqTunnel) (backend : BackendInfo) (remote : Remote) (token : List ℕ)
    (assigned : String) (t : TunnelOpened)
    → HasBackend env tunnel backend
    → (servers_of
        (told remote token assigned backend.host backend.port).client
        backend.port
        t).local_server
      ≡ backend.address
unfolding servers_of backend_info
dials_backend env tunnel backend remote token assigned t h =
    subst
      (λ (b : BackendInfo).
        (servers_of (told remote token assigned b.host b.port).client b.port t).local_server
        ≡ b.address)
      (sym h.info) (rw (named_host h.svc.name ("." <> h.svc.namespace <> ".svc") (dotted _)) refl)

-- The agent does as the controller has decided. In a pod that was built for a tunnel whose backend
-- passed the check, with a positive port that fits an int, and which the kubelet runs with its environment and
-- its token file, and where the remote configuration is served: the agent, started with no arguments,
-- opens an HTTP tunnel for the tunnel's subdomain with the Secret's token, less the white space at its
-- ends, and forwards it to the very address that the check found; and it leaves the files alone.
pub desired_pod-main :
    (env : Env) (tunnel : JprqTunnel) (backend : BackendInfo) (token : List ℕ) (pod : Pod)
    (container : Container) (host : Host) (disk : Disk) (remote : Remote) (program : String) (n : ℕ)
    → HasBackend env tunnel backend
    → desired_pod env.ext tunnel (agent_config env tunnel tunnel.spec.subdomain backend token)
      ≡ ok pod
    → pod.spec.containers ≡ container ∷ []
    → RunsIn host disk container token
    → host.get_remote remote_config ≡ response 200 (ok remote)
    → backend.port ≡ pos n
    → 0 < n
    → n < 2 ^ 63
    → let l = told remote token tunnel.spec.subdomain backend.host backend.port in
      (main host (program ∷ []) disk ≡ (running l, disk))
      × ((t : TunnelOpened) → (servers_of l.client l.port t).local_server ≡ backend.address)
unfolding agent_config
desired_pod-main env tunnel backend token pod container host disk remote program n checked built one
      runs served p q r =
    (
      main_lem host disk cfg runs_here.environment program n p q r
          ∙ ap (λ l. (l, disk)) (launch_lem host disk cfg token remote runs_here served n p),
      λ t. dials_backend env tunnel backend remote token tunnel.spec.subdomain t checked,
    )
  where
    cfg : AgentPodConfig
    cfg = agent_config env tunnel tunnel.spec.subdomain backend token

    same : container ≡ agent_container cfg
    same = head_of _ _ (sym one ∙ desired_pod-container env.ext tunnel cfg pod built)

    runs_here : RunsIn host disk (agent_container cfg) token
    runs_here = subst (λ c. RunsIn host disk c token) same runs

config_failure-retried :
    (b : CollisionBehavior) → (classify_exit exit_config_failure b).terminal ≡ false
unfolding classify_exit
config_failure-retried b = refl

-- An agent that cannot load its configuration is not condemned. In a pod that was built for a tunnel,
-- with a positive port that fits an int, where the agent has the container's environment and `Load` fails, for
-- want of the token file, say, or of the remote configuration: the agent prints that error, leaves
-- the files alone, and ends with code 20, for which the controller's verdict is to retry.
pub desired_pod-main_unloaded :
    (env : Env) (tunnel : JprqTunnel) (backend : BackendInfo) (token : List ℕ) (pod : Pod)
    (container : Container) (host : Host) (disk : Disk) (e program : String) (n : ℕ)
    → desired_pod env.ext tunnel (agent_config env tunnel tunnel.spec.subdomain backend token)
      ≡ ok pod
    → pod.spec.containers ≡ container ∷ []
    → HasEnvironment host container
    → load host disk ≡ err e
    → backend.port ≡ pos n
    → 0 < n
    → n < 2 ^ 63
    → (main host (program ∷ []) disk ≡ (ended exit_config_failure e, disk))
      × ((classify_exit exit_config_failure tunnel.spec.subdomain_collision_behavior).terminal
          ≡ false)
unfolding agent_config
desired_pod-main_unloaded env tunnel backend token pod container host disk e program n built one
      environment failed p q r =
    (
      main_lem host disk cfg here program n p q r
          ∙ ap (λ l. (l, disk)) (unloaded host disk cfg here n e failed),
      config_failure-retried tunnel.spec.subdomain_collision_behavior,
    )
  where
    cfg : AgentPodConfig
    cfg = agent_config env tunnel tunnel.spec.subdomain backend token

    here : HasEnvironment host (agent_container cfg)
    here =
        subst (HasEnvironment host)
          (head_of _ _ (sym one ∙ desired_pod-container env.ext tunnel cfg pod built)) environment

-- The kubelet asks where the agent answers. In a pod that was built for a tunnel, an agent with the
-- container's environment serves its health endpoint at the port that the readiness probe of that
-- container asks, on all interfaces, and the probe asks for /healthz on the pod's own address.
pub desired_pod-health_address :
    (env : Env) (tunnel : JprqTunnel) (backend : BackendInfo) (token : List ℕ) (pod : Pod)
    (container : Container) (host : Host) (probe : HttpProbe)
    → desired_pod env.ext tunnel (agent_config env tunnel tunnel.spec.subdomain backend token)
      ≡ ok pod
    → pod.spec.containers ≡ container ∷ []
    → HasEnvironment host container
    → container.readiness_probe ≡ some probe
    → (health_address host.getenv ≡ ":" <> itoa probe.port)
      × (probe.path ≡ "/healthz")
      × (probe.host ≡ "")
unfolding health_address itoa print_from
desired_pod-health_address env tunnel backend token pod container host probe built one environment
      probes =
    let same = head_of _ _ (
      sym one
      ∙ desired_pod-container env.ext tunnel
          (agent_config env tunnel tunnel.spec.subdomain backend token) pod built) in
    let asked = some-injective _ _ (ap (λ c. c.readiness_probe) (sym same) ∙ probes) in
    let told =
      environment "JPRQ_HEALTH_ADDR" ∙ ap (λ c. lookup_env "JPRQ_HEALTH_ADDR" c.env) same in
    (
      rw (told) (ap (λ p. ":" <> itoa p.port) asked),
      ap (λ p. p.path) (sym asked),
      ap (λ p. p.host) (sym asked),
    )
