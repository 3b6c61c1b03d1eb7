-- ===== src/Controller/Tests/Steady.antt =====
-- internal/controller/jprqtunnel_controller.go: requests that follow one another, and the conditions.
use jprq_bek.Base.{
  ℕ, ◌≡◌, refl, [], ◌∷◌, pos, ◌++◌, trim_space, trim_left, trim_right, itoa, itoa_int, print_from,
  bytes_of,
}
use jprq_bek.JprqConfig.{domain, url_for}
use jprq_bek.Controller.Classify.{agent_status, status_of, classify_pod, judge_status}
use jprq_bek.Controller.Token.{check_token, check_secret, check_value}
use jprq_bek.Controller.Pods.{pod_name, desired_pod, spec_hash, token_digest}
use jprq_bek.Controller.Json.{
  json_object, json_member, json_more, json_string, json_chars, json_char, json_number,
}
use jprq_bek.Controller.Actions.{agent_config, go_active, look_up_domain}
use jprq_bek.Controller.Backend.{
  check_backend, check_service, check_port, resolve_service_port, port_numbered, check_endpoints,
  has_ready_endpoint, any_ready, report_endpoints, backend_info,
}
use jprq_bek.Controller.Settle.{
  settle, act, converge, match_pod, judge, weigh_verdict, check_gates, check_ready, check_status,
}
use jprq_bek.Api.{JprqTunnel, Phase, failed, pending}
use jprq_bek.Kube.{Pod, Fetched, found, refused}
use jprq_bek.Controller.Run.{Run, Env, done, error, got_tunnel, got_pod, patched}
use jprq_bek.Controller.Actions.{no_requeue}
use jprq_bek.Controller.Reconcile.{
  reconcile, reconcile_request, gather, handle, agent_pod, pod_answer, observe_pod, start,
}
use jprq_bek.Controller.Reconcile.Requests.{written}
use jprq_bek.Controller.Calls.{pod_writes}
use jprq_bek.Controller.Steady.Uniform.{at_time}
use jprq_bek.Controller.Steady.Quiet.{Quiet, stored, quiet_after_status}
use jprq_bek.Controller.Steady.Idle.{finish-pod_writes}
use jprq_bek.Controller.Steady.LostEdits.{unread_edit_lost}
use jprq_bek.Controller.Conditions.Told.{Done}
use jprq_bek.Controller.Conditions.Honest.{HonestConditions, conditions_honest}
use jprq_bek.Controller.Tests.Libraries.{
  same_statuses, same_statuses_refl, same_statuses-generation, set_condition_at,
  set_condition_at-KeepsConditions,
}
use jprq_bek.Controller.Tests.Samples.{
  sample_ext, sample_answers, sample_env, sample_tunnel, sample_resolver, sample_run, sample_pod,
  ready_status, sample_status,
}

-- The sample world, with the library functions, at some time.
abbrev world : ℕ → Phase → Fetched Pod → Env
world now phase pod = record (sample_env phase pod) {
  ext = record sample_ext {
    set_status_condition = set_condition_at now;
    deep_equal = same_statuses;
  };
}

abbrev ready_world : Env
ready_world = world 7 pending (found (sample_pod ready_status))

unwritten :
    pod_writes (handle ready_world "shop" sample_resolver (found (sample_tunnel pending))).2 ≡ []
unfolding handle reconcile gather agent_pod pod_answer pod_name observe_pod agent_status status_of
    check_token check_secret check_value trim_space trim_left trim_right check_backend check_service
    check_port resolve_service_port port_numbered check_endpoints has_ready_endpoint any_ready
    report_endpoints backend_info itoa_int itoa print_from settle act converge agent_config
    desired_pod spec_hash json_object json_member json_more json_string json_chars json_char
    json_number bytes_of token_digest match_pod judge weigh_verdict classify_pod judge_status
    check_gates check_ready check_status go_active look_up_domain domain url_for
unwritten =
    let tunnel = sample_tunnel pending in
    finish-pod_writes ready_world tunnel
      (reconcile ready_world tunnel (start ready_world "shop" sample_resolver tunnel))

quiet_after_status_example : Quiet ready_world (sample_tunnel pending) "shop" sample_resolver (
    handle
      (at_time ready_world (set_condition_at 9))
      "shop"
      sample_resolver
      (found (stored ready_world (sample_tunnel pending) "shop" sample_resolver)))
quiet_after_status_example =
    quiet_after_status ready_world (sample_tunnel pending) "shop" sample_resolver
      (set_condition_at 9) sample_resolver refl refl (set_condition_at-KeepsConditions 7)
      (set_condition_at-KeepsConditions 9) same_statuses_refl (λ st pod. refl) refl unwritten

conditions_honest_example :
    Done
      (λ rq. HonestConditions ready_world (sample_tunnel pending))
      (reconcile ready_world (sample_tunnel pending) sample_run)
conditions_honest_example =
    conditions_honest ready_world (sample_tunnel pending) sample_run
      (set_condition_at-KeepsConditions 7)

-- A failed tunnel whose spec has been edited, while the pod cannot be read.
abbrev edited_tunnel : JprqTunnel
edited_tunnel = record (sample_tunnel failed) { generation = pos 2 }

abbrev refusing_world : Env
refusing_world = record (world 7 failed (refused "timeout")) {
  api = record (sample_answers failed (refused "timeout")) {
    get_tunnel = λ name. found edited_tunnel;
  };
}

abbrev unread_run : Run
unread_run = record {
  status = record (sample_status failed) { assigned_subdomain = "shop" };
  resolver = sample_resolver;
  calls = got_tunnel "shop" ∷ got_pod "operators" "jprq-shop" ∷ [];
}

unread_pod :
    gather refusing_world edited_tunnel (start refusing_world "shop" sample_resolver edited_tunnel)
    ≡ (error "reading agent pod operators/jprq-shop: timeout", unread_run)
unfolding gather agent_pod pod_answer pod_name
unread_pod = refl

abbrev later_world : Env
later_world = record ready_world {
  api = record (sample_answers failed (found (sample_pod ready_status))) {
    get_tunnel = λ name. found (written refusing_world edited_tunnel unread_run);
  };
}

unread_edit_lost_example :
    (reconcile_request refusing_world "shop" sample_resolver ≡ (
      error "reading agent pod operators/jprq-shop: timeout",
      sample_resolver,
      unread_run.calls ++ patched (written refusing_world edited_tunnel unread_run) ∷ [],
    ))
    × (reconcile_request later_world "shop" sample_resolver
        ≡ (done no_requeue, sample_resolver, got_tunnel "shop" ∷ []))
unread_edit_lost_example =
    unread_edit_lost refusing_world edited_tunnel "shop" sample_resolver
      "reading agent pod operators/jprq-shop: timeout" unread_run later_world sample_resolver refl
      refl refl edited_unseen same_statuses-generation unread_pod refl
  where
    edited_unseen : pos 1 ≡ pos 2 → ⊥
    edited_unseen h = cc
