-- ===== src/Controller/Classify.antt =====
-- internal/controller/classify.go: what the controller concludes from an agent container's exit.
pub mod Exits
pub mod Guard
pub mod Messages
use jprq_bek.Base.{
  Bool, true, false, ◌&&◌, String, Option, none, some, List, [], ◌∷◌, ℤ, ◌=ℤ=◌, itoa_int, ◌==◌,
  ◌<>◌, if◌then◌else◌,
}
use jprq_bek.Api.{
  CollisionBehavior, is_retry, Reason, no_reason, subdomain_busy, cname_busy,
  account_tunnel_limit_reached, auth_failed, not_allowlisted, invalid_subdomain, agent_exited,
}
use jprq_bek.Kube.{Pod, ContainerStatus, ContainerState}
use jprq_bek.Agent.ExitCodes.{
  exit_ok, exit_subdomain_busy, exit_cname_busy, exit_account_tunnel_limit, exit_auth_failed,
  exit_invalid_subdomain, exit_not_allowlisted, exit_config_failure, exit_event_server_unreachable,
  exit_event_stream_dropped,
}

-- `agentContainerName` of internal/controller/pod.go.
abbrev pub agent_container_name : String
agent_container_name = "agent"

pub record Verdict : Type 0 where
  pub terminal : Bool
  pub delete_pod : Bool
  pub token_invalid : Bool
  pub reason : Reason
  pub message : String

-- `exitDescription`
pub exit_description : ℤ → String
unfolding itoa_int
exit_description exit_code =
    if exit_code =ℤ= exit_ok
    then "agent exited cleanly and is being restarted"
    else if exit_code =ℤ= exit_config_failure
    then "agent could not load its configuration or token; retrying"
    else if exit_code =ℤ= exit_event_server_unreachable
    then "agent could not reach the jprq event server; retrying"
    else if exit_code =ℤ= exit_event_stream_dropped
    then "connection to the jprq event server dropped; reconnecting"
    else "agent exited with code " <> itoa_int exit_code <> "; retrying"

-- A verdict that only gives a reason and a message.
abbrev retryable : Reason → String → Verdict
retryable reason message = record {
  terminal = false;
  delete_pod = false;
  token_invalid = false;
  reason = reason;
  message = message;
}

-- `Terminal: true, DeletePod: true`
abbrev final : Bool → Reason → String → Verdict
final token_invalid reason message = record {
  terminal = true;
  delete_pod = true;
  token_invalid = token_invalid;
  reason = reason;
  message = message;
}

-- `classifyExit`
unfoldable pub classify_exit : ℤ → CollisionBehavior → Verdict
classify_exit exit_code collision_behavior =
    if exit_code =ℤ= exit_auth_failed
    then final true auth_failed
        "jprq rejected the auth token; check the token Secret and re-create this tunnel"
    else if exit_code =ℤ= exit_not_allowlisted
    then final true not_allowlisted
        "this jprq account is not allowlisted for the invite-only service"
    else if exit_code =ℤ= exit_account_tunnel_limit
    then final false account_tunnel_limit_reached
        "jprq account tunnel limit reached; delete a tunnel you no longer need, then delete and re-create this one"
    else if exit_code =ℤ= exit_subdomain_busy
    then (if is_retry collision_behavior
        then retryable subdomain_busy
            "subdomain is already taken; retrying until the current holder releases it"
        else final false subdomain_busy
            "subdomain is already taken; set subdomainCollisionBehavior: retry, or choose another subdomain")
    else if exit_code =ℤ= exit_invalid_subdomain
    then final false invalid_subdomain
        "jprq rejected the subdomain as invalid, which the CRD schema should have prevented; please report this"
    else if exit_code =ℤ= exit_cname_busy
    then final false cname_busy
        "jprq reported the CNAME is busy, which should be unreachable in v1alpha1; please report this"
    else retryable agent_exited (exit_description exit_code)

-- The loop of `agentStatus`.
unfoldable pub status_of : String → List ContainerStatus → Option ContainerStatus
status_of name [] = none
status_of name (cs ∷ rest) = if cs.name == name then some cs else status_of name rest

unfoldable pub agent_status : Pod → Option ContainerStatus
unfolding status_of
agent_status pod = status_of agent_container_name pod.container_statuses

-- `cs.State.Running != nil && cs.Ready`
abbrev pub is_online : ContainerStatus → Bool
is_online cs = cs.state.running && cs.ready

-- `term`: the last termination, else a current one.
abbrev pub termination : ContainerStatus → Option ℤ
termination cs = elim cs.last_termination_state.terminated [
  | some code ↦ some code
  | none ↦ cs.state.terminated
]

abbrev judge_exit : CollisionBehavior → Option ℤ → Option (Verdict × ℤ)
judge_exit collision_behavior none = none
judge_exit collision_behavior (some code) = some (classify_exit code collision_behavior, code)

-- `classifyPod`; `none` is `ok == false`.
unfoldable pub judge_status : CollisionBehavior → Option ContainerStatus → Option (Verdict × ℤ)
judge_status collision_behavior none = none
judge_status collision_behavior (some cs) =
    if is_online cs then none else judge_exit collision_behavior (termination cs)

unfoldable pub classify_pod : Pod → CollisionBehavior → Option (Verdict × ℤ)
unfolding judge_status
classify_pod pod collision_behavior = judge_status collision_behavior (agent_status pod)
