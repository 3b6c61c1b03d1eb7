-- ===== src/Controller/Steady/Owner.antt =====
-- internal/controller/jprqtunnel_controller.go, `reconcile`: what it takes from the tunnel is the spec
-- and the metadata.
use jprq_bek.Base.{◌≡◌, ap, if◌then◌else◌}
use jprq_bek.Api.{JprqTunnel, JprqTunnelStatus, degraded, pod_pending}
use jprq_bek.Kube.{Pod}
use jprq_bek.Controller.Pods.{AgentPodConfig, desired_pod, unowned_pod, with_owner}
use jprq_bek.Controller.Run.{
  Env, Run, lift, get_status, update_status, pure, continue_with, ◌>>=◌, ◌>>◌,
}
use jprq_bek.Controller.Actions.{agent_config, set_not_ready, requeue_waiting}
use jprq_bek.Controller.Settle.{
  Facts, both_passed, is_terminating, judge, match_pod, converge, act, settle,
}
use jprq_bek.Controller.Reconcile.{gather, reconcile}

module _ (env : Env) (tunnel : JprqTunnel) (st : JprqTunnelStatus)
    (unread : (pod : Pod)
      → env.ext.owner_references (record tunnel { status = st }) pod
        ≡ env.ext.owner_references tunnel pod) where
  abbrev restated : JprqTunnel
  restated = record tunnel { status = st }

  desired_pod-restated :
      (cfg : AgentPodConfig) → desired_pod env.ext restated cfg ≡ desired_pod env.ext tunnel cfg
  unfolding desired_pod
  desired_pod-restated cfg =
      let pod = unowned_pod env.ext tunnel cfg in ap (with_owner env.ext pod) (unread pod)

  converge-restated : (f : Facts) → converge env restated f ≡ converge env tunnel f
  unfolding converge match_pod judge agent_config
  converge-restated f i =
      if both_passed f
      then (do
        status ← get_status
        desired ← lift (
            desired_pod-restated
              (agent_config env tunnel status.assigned_subdomain f.backend f.token) i)
        match_pod env tunnel f f.existing desired)
      else judge env tunnel f f.existing

  act-restated : (f : Facts) → act env restated f ≡ act env tunnel f
  unfolding act
  act-restated f i =
      if is_terminating f.existing
      then (do
        set_not_ready env degraded pod_pending "waiting for the previous agent pod to terminate"
        pure requeue_waiting)
      else converge-restated f i

  settle-restated : (f : Facts) → settle env restated f ≡ settle env tunnel f
  unfolding settle
  settle-restated f i = do
    if f.backend_gate.passed
        then update_status (λ st. record st { backend_address = f.backend.address })
        else pure tt
    act-restated f i

  pub reconcile-restated : (s : Run) → reconcile env restated s ≡ reconcile env tunnel s
  unfolding reconcile gather
  reconcile-restated s i = continue_with (gather env tunnel s) (λ f. settle-restated f i)
