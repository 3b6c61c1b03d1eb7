-- ===== src/Controller/Settle.antt =====
-- internal/controller/jprqtunnel_controller.go: what `reconcile` does with what it has read.
pub mod Phases
pub mod Endings
pub mod Writes
pub mod Converging
use jprq_bek.Base.{
  ℕ, String, Bool, true, false, not, ◌&&◌, ◌||◌, List, Option, none, some, ◌<>◌, ◌==◌, ℤ,
  if◌then◌else◌, is_some, lookup_or_empty,
}
use jprq_bek.Api.{JprqTunnel, pending, degraded, pod_pending, pod_not_ready}
use jprq_bek.Kube.{Pod, ContainerStatus, Deletion, deleted, already_gone, not_deleted}
use jprq_bek.Controller.Classify.{Verdict, agent_status, is_online, classify_pod}
use jprq_bek.Controller.Pods.{spec_hash_annotation, desired_pod}
use jprq_bek.Controller.Run.{
  Env, Requeue, M, pure, fail, lift, nil_dereference, ◌>>=◌, ◌>>◌, call, update_status, get_status,
  created, deleted_pod, recorded,
}
use jprq_bek.Controller.Gate.{Gate}
use jprq_bek.Controller.Backend.{BackendInfo}
use jprq_bek.Controller.Actions.{
  requeue_waiting, normal_event, set_not_ready, agent_config, apply_verdict, go_active,
}

-- What `reconcile` has read when it starts to act.
pub record Facts : Type 0 where
  pub existing : Option Pod
  pub token : List ℕ
  pub token_gate : Gate
  pub backend : BackendInfo
  pub backend_gate : Gate

abbrev pub both_passed : Facts → Bool
both_passed f = f.token_gate.passed && f.backend_gate.passed

-- `existing != nil && !existing.DeletionTimestamp.IsZero()`
abbrev pub is_terminating : Option Pod → Bool
is_terminating none = false
is_terminating (some pod) = is_some pod.deletion_timestamp

module _ (env : Env) where
  open env use {ext, api}

  -- The status of the agent container decides, at the end of `reconcile`.
  unfoldable pub check_status : Option ContainerStatus → M Requeue
  unfolding set_not_ready go_active
  check_status none = do
    set_not_ready env degraded pod_not_ready "agent pod is not ready"
    pure requeue_waiting
  check_status (some cs) = if is_online cs then go_active env else (do
    set_not_ready env degraded pod_not_ready "agent pod is not ready"
    pure requeue_waiting)

  unfoldable pub check_ready : Option Pod → M Requeue
  unfolding check_status
  check_ready none = nil_dereference
  check_ready (some pod) = check_status (agent_status pod)

  -- A precondition has failed.
  abbrev pub failed_gate : Facts → Gate
  failed_gate f = if f.token_gate.passed then f.backend_gate else f.token_gate

  unfoldable pub stay_blocked : Facts → M Requeue
  unfolding set_not_ready
  stay_blocked f = do
    set_not_ready env (if is_some f.existing then degraded else pending) (failed_gate f).reason
        (failed_gate f).message
    pure requeue_waiting

  unfoldable pub check_gates : Facts → M Requeue
  unfolding check_ready stay_blocked
  check_gates f =
      if not f.token_gate.passed || not f.backend_gate.passed
      then stay_blocked f
      else check_ready f.existing

  unfoldable pub weigh_verdict : Facts → Pod → Option (Verdict × ℤ) → M Requeue
  unfolding check_gates apply_verdict
  weigh_verdict f pod none = check_gates f
  weigh_verdict f pod (some (v, exit_code)) = apply_verdict env pod v exit_code

  unfoldable pub judge : JprqTunnel → Facts → Option Pod → M Requeue
  unfolding weigh_verdict
  judge tunnel f none = check_gates f
  judge tunnel f (some pod) =
      weigh_verdict f pod (classify_pod pod tunnel.spec.subdomain_collision_behavior)

  unfoldable pub create_answer : Pod → Option String → M Requeue
  unfolding set_not_ready
  create_answer desired (some e) = fail ("creating agent pod: " <> e)
  create_answer desired none = do
    call (
        recorded (
          normal_event "PodCreated" "CreatePod"
            ("Created agent pod " <> desired.namespace <> "/" <> desired.name)))
    update_status λ st. record st { pod_name = desired.name }
    set_not_ready env pending pod_pending "agent pod created, waiting for it to become ready"
    pure requeue_waiting

  unfoldable pub create_agent : Pod → M Requeue
  unfolding create_answer
  create_agent desired = do call (created desired); create_answer desired (api.create_pod desired)

  unfoldable pub announce_recreation : Pod → M Requeue
  unfolding set_not_ready
  announce_recreation pod = do
    call (
        recorded (
          normal_event "PodRecreated" "RecreatePod"
            ("Agent pod " <> pod.namespace <> "/" <> pod.name <> " is outdated; recreating")))
    set_not_ready env pending pod_pending "configuration changed, recreating the agent pod"
    pure requeue_waiting

  unfoldable pub delete_outdated : Pod → Deletion → M Requeue
  unfolding announce_recreation
  delete_outdated pod (not_deleted e) = fail ("deleting outdated agent pod: " <> e)
  delete_outdated pod deleted = announce_recreation pod
  delete_outdated pod already_gone = announce_recreation pod

  unfoldable pub recreate_agent : Pod → M Requeue
  unfolding delete_outdated
  recreate_agent pod = do call (deleted_pod pod); delete_outdated pod (api.delete_pod pod)

  -- `existing.Annotations[SpecHashAnnotation] == desired.Annotations[SpecHashAnnotation]`
  abbrev pub is_current : Pod → Pod → Bool
  is_current pod desired =
      lookup_or_empty spec_hash_annotation pod.annotations
      == lookup_or_empty spec_hash_annotation desired.annotations

  unfoldable pub match_pod : JprqTunnel → Facts → Option Pod → Pod → M Requeue
  unfolding judge create_agent recreate_agent
  match_pod tunnel f none desired = create_agent desired
  match_pod tunnel f (some pod) desired =
      if is_current pod desired then judge tunnel f (some pod) else recreate_agent pod

  unfoldable pub converge : JprqTunnel → Facts → M Requeue
  unfolding match_pod judge agent_config desired_pod
  converge tunnel f =
      if both_passed f
      then (do
        st ← get_status
        desired ← lift (
            desired_pod ext tunnel
              (agent_config env tunnel st.assigned_subdomain f.backend f.token))
        match_pod tunnel f f.existing desired)
      else judge tunnel f f.existing

  -- A pod that was asked to go away is waited out.
  unfoldable pub act : JprqTunnel → Facts → M Requeue
  unfolding converge set_not_ready
  act tunnel f =
      if is_terminating f.existing
      then (do
        set_not_ready env degraded pod_pending "waiting for the previous agent pod to terminate"
        pure requeue_waiting)
      else converge tunnel f

  -- The second half of `reconcile`.
  unfoldable pub settle : JprqTunnel → Facts → M Requeue
  unfolding act
  settle tunnel f = do
    if f.backend_gate.passed
        then update_status (λ st. record st { backend_address = f.backend.address })
        else pure tt
    act tunnel f
