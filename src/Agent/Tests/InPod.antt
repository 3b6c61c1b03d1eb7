-- ===== src/Agent/Tests/InPod.antt =====
-- internal/controller/pod.go and cli/main.go: the agent in the sample tunnel's pod.
use jprq_bek.Base.{itoa, ◌<>◌, String, err, false, ◌≡◌, refl, [], ◌∷◌, pos, arith}
use jprq_bek.Api.{pending, collision_fail}
use jprq_bek.Kube.{HttpProbe, Container}
use jprq_bek.Controller.Pods.{agent_container}
use jprq_bek.Controller.Actions.{agent_config}
use jprq_bek.Controller.Tests.Samples.{sample_tunnel}
use jprq_bek.Controller.Tests.Pods.{
  new_env, new_token, front_backend, new_pod, new_pod_built, front_backend_checked,
}
use jprq_bek.Agent.Config.{load}
use jprq_bek.Agent.ExitCodes.{exit_config_failure}
use jprq_bek.Controller.Classify.{classify_exit}
use jprq_bek.Agent.Host.{no_response, Host, Disk, put}
use jprq_bek.Agent.Client.{health_address, TunnelOpened, servers_of}
use jprq_bek.Agent.Command.{ended, running, main}
use jprq_bek.Agent.Command.Environment.{HasEnvironment, lookup_env, RunsIn, told}
use jprq_bek.Agent.Command.InPod.{
  desired_pod-health_address, desired_pod-main_unloaded, desired_pod-main,
}
use jprq_bek.Agent.Tests.Files.{sample_host, sample_remote, empty_disk}

abbrev sample_container : Container
sample_container =
    agent_container (agent_config new_env (sample_tunnel pending) "shop" front_backend new_token)

abbrev pod_host : Host
pod_host = record sample_host { getenv = λ name. lookup_env name sample_container.env }

abbrev pod_disk : Disk
pod_disk = put empty_disk "/etc/jprq/authToken" new_token

sample_runs : RunsIn pod_host pod_disk sample_container new_token
unfolding agent_config
sample_runs = record { environment = λ name. refl; readable = refl; mounted = refl }

desired_pod-main_example :
    let l = told sample_remote new_token "shop" "front.web.svc" (pos 80) in
    (main pod_host ("jprq" ∷ []) pod_disk ≡ (running l, pod_disk))
    × ((t : TunnelOpened) → (servers_of l.client l.port t).local_server ≡ front_backend.address)
desired_pod-main_example =
    desired_pod-main new_env (sample_tunnel pending) front_backend new_token new_pod
      sample_container pod_host pod_disk sample_remote "jprq" 80 front_backend_checked new_pod_built
      refl sample_runs refl refl (omega arith) (omega arith)

-- The remote configuration cannot be fetched.
abbrev offline_host : Host
offline_host = record pod_host { get_remote = λ url. no_response "timeout" }

abbrev offline_message : String
offline_message = "error fetching https://jprq.io/config.json: timeout"

offline_load : load offline_host pod_disk ≡ err offline_message
unfolding load agent_config
offline_load = refl

offline_environment : HasEnvironment offline_host sample_container
offline_environment name = refl

desired_pod-main_unloaded_example :
    (main offline_host ("jprq" ∷ []) pod_disk
      ≡ (ended exit_config_failure offline_message, pod_disk))
    × ((classify_exit exit_config_failure collision_fail).terminal ≡ false)
desired_pod-main_unloaded_example =
    desired_pod-main_unloaded new_env (sample_tunnel pending) front_backend new_token new_pod
      sample_container offline_host pod_disk offline_message "jprq" 80 new_pod_built refl
      offline_environment offline_load refl (omega arith) (omega arith)

abbrev sample_probe : HttpProbe
sample_probe = record { path = "/healthz"; port = 9000; host = ""; period_seconds = 10 }

desired_pod-health_address_example :
    (health_address pod_host.getenv ≡ ":" <> itoa sample_probe.port)
    × (sample_probe.path ≡ "/healthz")
    × (sample_probe.host ≡ "")
desired_pod-health_address_example =
    desired_pod-health_address new_env (sample_tunnel pending) front_backend new_token new_pod
      sample_container pod_host sample_probe new_pod_built refl sample_runs.environment refl
