-- ===== src/Controller/Actions.antt =====
-- internal/controller/jprqtunnel_controller.go: the parts of `reconcile` that act on the tunnel:
-- `setNotReady`, `agentConfig`, `applyVerdict`, and what makes a tunnel active.
use jprq_bek.Base.{
  ℕ, String, true, false, List, ◌++◌, some, ◌<>◌, ℤ, if◌then◌else◌, Result, ok, err,
}
use mathlib.Core.List.{map}
use jprq_bek.Api.{
  JprqTunnel, JprqTunnelStatus, Phase, active, degraded, failed, Reason, reason_text,
  is_subdomain_busy, ready, token_ready, cond_true, cond_false, tunnel_active,
}
use jprq_bek.Kube.{Pod, Deletion, deleted, already_gone, not_deleted}
use jprq_bek.JprqConfig.{domain, url_for}
use jprq_bek.Controller.Classify.{Verdict}
use jprq_bek.Controller.Pods.{AgentPodConfig, token_digest}
use jprq_bek.Controller.Run.{
  Env, Requeue, Event, M, pure, fail, ◌>>=◌, ◌>>◌, done, call, update_status, set_condition,
  deleted_pod, recorded, fetched,
}
use jprq_bek.Controller.Token.{secret_key_of}
use jprq_bek.Controller.Backend.{BackendInfo}

abbrev pub requeue_waiting : Requeue
requeue_waiting = record { requeue_after = 60 }

abbrev pub requeue_active : Requeue
requeue_active = record { requeue_after = 300 }

-- `ctrl.Result{}`
abbrev pub no_requeue : Requeue
no_requeue = record { requeue_after = 0 }

abbrev pub normal_event : String → String → String → Event
normal_event reason action note = record {
  warning = false;
  reason = reason;
  action = action;
  note = note;
}

abbrev pub warning_event : Reason → String → String → Event
warning_event reason action note = record {
  warning = true;
  reason = reason_text reason;
  action = action;
  note = note;
}

module _ (env : Env) where
  open env use {ext, api, agent_image, operator_namespace}

  -- `setNotReady`
  unfoldable pub set_not_ready : Phase → Reason → String → M (Unit {0})
  set_not_ready phase reason message = do
    update_status λ st. record st { phase = phase }
    set_condition ext ready cond_false reason message

  -- `agentConfig`, for the subdomain of the status.
  unfoldable pub agent_config : JprqTunnel → String → BackendInfo → List ℕ → AgentPodConfig
  unfolding token_digest
  agent_config tunnel assigned backend token = record {
    image = agent_image;
    operator_namespace = operator_namespace;
    backend_host = backend.host;
    backend_port = backend.port;
    subdomain = assigned;
    secret_name = tunnel.spec.jprq_token_secret.name;
    secret_key = secret_key_of tunnel.spec.jprq_token_secret;
    token_digest = token_digest ext token;
  }

  unfoldable pub delete_failed : Deletion → M Requeue
  delete_failed (not_deleted e) = fail ("deleting failed agent pod: " <> e)
  delete_failed deleted = do update_status λ st. record st { pod_name = "" }; pure no_requeue
  delete_failed already_gone = do update_status λ st. record st { pod_name = "" }; pure no_requeue

  unfoldable pub apply_retryable : Verdict → M Requeue
  unfolding set_not_ready
  apply_retryable v = do
    if is_subdomain_busy v.reason
        then call (recorded (warning_event v.reason "ClaimSubdomain" v.message))
        else pure tt
    set_not_ready degraded v.reason v.message
    pure requeue_waiting

  unfoldable pub apply_terminal : Pod → Verdict → M Requeue
  unfolding set_not_ready delete_failed
  apply_terminal pod v = do
    set_not_ready failed v.reason v.message
    call (recorded (warning_event v.reason "StartTunnel" v.message))
    if v.delete_pod
        then (do call (deleted_pod pod); delete_failed (api.delete_pod pod))
        else pure no_requeue

  -- `applyVerdict`
  unfoldable pub apply_verdict : Pod → Verdict → ℤ → M Requeue
  unfolding apply_retryable apply_terminal
  apply_verdict pod v exit_code = do
    update_status
        λ st. record st { last_exit_code = some exit_code; last_failure_message = v.message }
    if v.token_invalid then set_condition ext token_ready cond_false v.reason v.message else pure tt
    if v.terminal then apply_terminal pod v else apply_retryable v

  -- `r.Domain.Domain(ctx)`
  unfoldable pub look_up_domain : M (Result String)
  unfolding domain
  look_up_domain s =
      let (answer, resolver, sent) = domain api.get_config s.resolver in
      (done answer, record s { resolver = resolver; calls = s.calls ++ map fetched sent })

  -- `status.url` after the lookup: kept where the lookup failed.
  abbrev pub url_after : Result String → JprqTunnelStatus → String
  url_after (ok d) st = url_for st.assigned_subdomain d
  url_after (err e) st = st.url

  unfoldable pub go_active : M Requeue
  unfolding look_up_domain
  go_active = do
    update_status λ st. record st { phase = active; last_failure_message = "" }
    answer ← look_up_domain
    update_status λ st. record st { url = url_after answer st }
    set_condition ext ready cond_true tunnel_active "tunnel is online"
    pure requeue_active
