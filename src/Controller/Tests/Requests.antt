-- ===== src/Controller/Tests/Requests.antt =====
-- internal/controller/jprqtunnel_controller.go: requests for the sample tunnel.
use jprq_bek.Base.{
  ◌≡◌, refl, pos, trim_space, trim_left, trim_right, itoa, itoa_int, print_from, bytes_of,
}
use jprq_bek.JprqConfig.{domain, url_for}
use jprq_bek.Controller.Classify.{agent_status, status_of, classify_pod, judge_status}
use jprq_bek.Controller.Token.{check_token, check_secret, check_value}
use jprq_bek.Controller.Pods.{pod_name, desired_pod, spec_hash, token_digest}
use jprq_bek.Controller.Json.{
  json_object, json_member, json_more, json_string, json_chars, json_char, json_number,
}
use jprq_bek.Controller.Actions.{agent_config, go_active, look_up_domain}
use jprq_bek.Controller.Backend.{
  check_backend, check_service, check_port, resolve_service_port, port_numbered, check_endpoints,
  has_ready_endpoint, any_ready, report_endpoints, backend_info,
}
use jprq_bek.Controller.Settle.{
  settle, act, converge, match_pod, judge, weigh_verdict, check_gates, check_ready, check_status,
}
use jprq_bek.Api.{pending}
use jprq_bek.Kube.{found, refused}
use jprq_bek.Controller.Run.{Env, done}
use jprq_bek.Controller.Ends.{Ends}
use jprq_bek.Controller.Actions.{requeue_active}
use jprq_bek.Controller.Reconcile.{
  reconcile, reconcile_request, gather, handle, finish, patch_status, agent_pod, pod_answer,
  observe_pod,
}
use jprq_bek.Controller.Reconcile.Report.{Report, reconcile_honest}
use jprq_bek.Controller.Reconcile.PodWrites.{PodsWritten, reconcile_pod_writes}
use jprq_bek.Controller.Reconcile.Requests.{Settled, reconcile_request-Settled}
use jprq_bek.Controller.Tests.Samples.{
  sample_env, sample_tunnel, sample_resolver, sample_run, sample_pod, exited_status, ready_status,
}

abbrev ready_env : Env
ready_env = sample_env pending (found (sample_pod ready_status))

abbrev exited_env : Env
exited_env = sample_env pending (found (sample_pod (exited_status (pos 13))))

abbrev refusing_env : Env
refusing_env = sample_env pending (refused "timeout")

reconcile_honest_example :
    Ends
      (Report exited_env (sample_tunnel pending))
      (λ _. Unit)
      (reconcile exited_env (sample_tunnel pending) sample_run)
reconcile_honest_example = reconcile_honest exited_env (sample_tunnel pending) sample_run

reconcile_pod_writes_example :
    Ends
      (λ _. PodsWritten exited_env (sample_tunnel pending) sample_run)
      (PodsWritten exited_env (sample_tunnel pending) sample_run)
      (reconcile exited_env (sample_tunnel pending) sample_run)
reconcile_pod_writes_example = reconcile_pod_writes exited_env (sample_tunnel pending) sample_run

ready_tunnel : (reconcile_request ready_env "shop" sample_resolver).0 ≡ done requeue_active
unfolding reconcile_request handle finish patch_status reconcile gather agent_pod pod_answer
    pod_name observe_pod agent_status status_of check_token check_secret check_value trim_space
    trim_left trim_right check_backend check_service check_port resolve_service_port port_numbered
    check_endpoints has_ready_endpoint any_ready report_endpoints backend_info itoa_int itoa
    print_from settle act converge agent_config desired_pod spec_hash json_object json_member
    json_more json_string json_chars json_char json_number bytes_of token_digest match_pod judge
    weigh_verdict classify_pod judge_status check_gates check_ready check_status go_active
    look_up_domain domain url_for
ready_tunnel = refl

reconcile_request-Settled_example :
    Settled ready_env
      (sample_tunnel pending)
      requeue_active
      (reconcile_request ready_env "shop" sample_resolver).2
reconcile_request-Settled_example =
    reconcile_request-Settled ready_env (sample_tunnel pending) "shop" sample_resolver refl refl
      refl requeue_active ready_tunnel
