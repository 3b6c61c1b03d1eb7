-- ===== src/Controller/Reconcile/Converges.antt =====
-- internal/controller/jprqtunnel_controller.go, `reconcile`, where both preconditions hold.
use mathlib.Core.List.{Memᴰ}
use jprq_bek.Base.{
  ℕ, inl, inr, ◌≢◌, ◌≡◌, ◌↔◌, refl, sym, ◌∙◌, true, false, List, [], ◌∷◌, ◌++◌, none, some, is_some,
  ok, arith,
}
use jprq_bek.Api.{JprqTunnel, active, pending, degraded, failed}
use jprq_bek.Kube.{Pod, ContainerStatus, found, missing, deleted}
use jprq_bek.Controller.Classify.{agent_status, is_online, classify_pod, judge_status}
use jprq_bek.Controller.Pods.{desired_pod, pod_name}
use jprq_bek.Controller.Run.{
  Env, Run, Requeue, Outcome, done, error, panic, Call, created, deleted_pod,
}
use jprq_bek.Controller.Ends.{Ends}
use jprq_bek.Controller.Token.Evidence.{HasToken}
use jprq_bek.Controller.Backend.{BackendInfo}
use jprq_bek.Controller.Backend.Evidence.{HasBackend}
use jprq_bek.Controller.Actions.{
  requeue_active, requeue_waiting, agent_config, go_active, set_not_ready,
}
use jprq_bek.Controller.Settle.{
  is_current, settle, act, converge, match_pod, judge, weigh_verdict, check_gates, check_ready,
  check_status, create_agent, create_answer, recreate_agent, delete_outdated, announce_recreation,
}
use jprq_bek.Controller.Reconcile.{reconcile}
use jprq_bek.Controller.Reconcile.Report.{
  Serving, Report, reports_active, reports_failed, reports_waiting, reconcile_honest,
}
use jprq_bek.Controller.Reconcile.Known.{known, gather-known, Yields-continue}

-- The reconciliation succeeds, and the tunnel is active.
abbrev pub IsActive : Outcome Requeue × Run → Type 0
IsActive = Ends (λ rq s. (rq ≡ requeue_active) × (s.status.phase ≡ active)) (λ _. ⊥)

-- The reconciliation succeeds, the tunnel waits for the next one, and this call was made.
abbrev pub IsWaitingAfter : Call → Outcome Requeue × Run → Type 0
IsWaitingAfter c =
    Ends (λ rq s. (rq ≡ requeue_waiting) × (s.status.phase ≡ pending) × Memᴰ c s.calls) (λ _. ⊥)

online : (cs : ContainerStatus) → cs.state.running ≡ true → cs.ready ≡ true → is_online cs ≡ true
online cs h k = ground arith

no_deletion : (pod : Pod) → pod.deletion_timestamp ≡ none → is_some pod.deletion_timestamp ≡ false
no_deletion pod h = rw h

online_unjudged :
    (env : Env) (tunnel : JprqTunnel) (pod : Pod) (cs : ContainerStatus)
    → agent_status pod ≡ some cs
    → is_online cs ≡ true
    → classify_pod pod tunnel.spec.subdomain_collision_behavior ≡ none
unfolding classify_pod judge_status
online_unjudged env tunnel pod cs h k = rw (h, k)

active-ne-failed : active ≢ failed
active-ne-failed h = cc

active-ne-pending : active ≢ pending
active-ne-pending h = cc

active-ne-degraded : active ≢ degraded
active-ne-degraded h = cc

module _ (env : Env) (tunnel : JprqTunnel) where
  settle-IsActive :
      (w : Serving env tunnel) (s : Run)
      → s.status.assigned_subdomain ≡ tunnel.spec.subdomain
      → IsActive (settle env tunnel (known env tunnel (some w.pod) w.token w.backend) s)
  unfolding settle act converge match_pod judge weigh_verdict check_gates check_ready check_status
      go_active
  settle-IsActive w s e =
      rw
        (
          no_deletion w.pod w.kept,
          e,
          w.built,
          w.current,
          online_unjudged env tunnel w.pod w.cs w.status (online w.cs w.running w.ready),
          w.status,
          online w.cs w.running w.ready,
        )
        (record { holds = (refl, refl) })

  -- A world that serves the tunnel makes it active, whatever its status was.
  pub reconcile-IsActive : (s : Run) → Serving env tunnel → IsActive (reconcile env tunnel s)
  unfolding reconcile
  reconcile-IsActive s w =
      Yields-continue (known env tunnel (some w.pod) w.token w.backend) tunnel.spec.subdomain _ _
        (gather-known env tunnel (some w.pod) w.token w.backend s w.read w.has_token w.has_backend)
        (λ s' e. settle-IsActive w s' e)

  active-Serving :
      (o : Outcome Requeue × Run)
      → Ends (Report env tunnel) (λ _. Unit) o
      → IsActive o
      → Serving env tunnel
  active-Serving (done rq, s) r a = reported rq s r.holds a.holds.1
    where
      reported :
          (rq : Requeue) (s : Run)
          → Report env tunnel rq s
          → s.status.phase ≡ active
          → Serving env tunnel
      reported rq s (reports_active p q w) h = w
      reported rq s (reports_failed p q w) h = absurd (active-ne-failed (sym h ∙ p))
      reported rq s (reports_waiting (inl p) q) h = absurd (active-ne-pending (sym h ∙ p))
      reported rq s (reports_waiting (inr p) q) h = absurd (active-ne-degraded (sym h ∙ p))
  active-Serving (error e, s) r a = absurd a.holds
  active-Serving (panic, s) r a = absurd a.holds

  -- `reconcile` calls a tunnel active exactly when it is served: it succeeds with the phase active and a
  -- requeue after 300 seconds if and only if the Secret holds a token that is not blank, the Service
  -- declares the port and has a ready endpoint, and the agent pod exists, is not being deleted, has the
  -- wanted spec hash, and runs and is ready.
  pub reconcile-IsActive_iff : (s : Run) → IsActive (reconcile env tunnel s) ↔ Serving env tunnel
  reconcile-IsActive_iff s =
      (active-Serving _ (reconcile_honest env tunnel s), reconcile-IsActive s)

  last_but_one : (l : List Call) (c e : Call) → Memᴰ c ((l ++ c ∷ []) ++ e ∷ [])
  last_but_one [] c e = Memᴰ.head refl
  last_but_one (x ∷ l) c e = Memᴰ.tail (last_but_one l c e)

  -- What a tunnel wants, whose preconditions hold.
  pub record Wanted : Type 0 where
    pub token : List ℕ
    pub backend : BackendInfo
    pub desired : Pod
    pub has_token : HasToken env tunnel token
    pub has_backend : HasBackend env tunnel backend
    pub built :
        desired_pod env.ext tunnel (agent_config env tunnel tunnel.spec.subdomain backend token)
        ≡ ok desired

  settle-created :
      (w : Wanted) (s : Run)
      → env.api.create_pod w.desired ≡ none
      → s.status.assigned_subdomain ≡ tunnel.spec.subdomain
      → IsWaitingAfter
          (created w.desired)
          (settle env tunnel (known env tunnel none w.token w.backend) s)
  unfolding settle act converge match_pod create_agent create_answer set_not_ready
  settle-created w s c e = rw (e, w.built, c) (record { holds = (refl, refl, last_but_one _ _ _) })

  pub reconcile-created :
      (w : Wanted) (s : Run)
      → env.api.get_pod env.operator_namespace (pod_name tunnel.name) ≡ missing
      → env.api.create_pod w.desired ≡ none
      → IsWaitingAfter (created w.desired) (reconcile env tunnel s)
  unfolding reconcile
  reconcile-created w s m c =
      Yields-continue (known env tunnel none w.token w.backend) tunnel.spec.subdomain _ _
        (gather-known env tunnel none w.token w.backend s m w.has_token w.has_backend)
        (λ s' e. settle-created w s' c e)

  settle-recreated :
      (w : Wanted) (pod : Pod) (s : Run)
      → pod.deletion_timestamp ≡ none
      → is_current env pod w.desired ≡ false
      → env.api.delete_pod pod ≡ deleted
      → s.status.assigned_subdomain ≡ tunnel.spec.subdomain
      → IsWaitingAfter
          (deleted_pod pod)
          (settle env tunnel (known env tunnel (some pod) w.token w.backend) s)
  unfolding settle act converge match_pod recreate_agent delete_outdated announce_recreation
      set_not_ready
  settle-recreated w pod s k o d e =
      rw (no_deletion pod k, e, w.built, o, d) (record { holds = (refl, refl, last_but_one _ _ _) })

  pub reconcile-recreated :
      (w : Wanted) (pod : Pod) (s : Run)
      → env.api.get_pod env.operator_namespace (pod_name tunnel.name) ≡ found pod
      → pod.deletion_timestamp ≡ none
      → is_current env pod w.desired ≡ false
      → env.api.delete_pod pod ≡ deleted
      → IsWaitingAfter (deleted_pod pod) (reconcile env tunnel s)
  unfolding reconcile
  reconcile-recreated w pod s m k o d =
      Yields-continue (known env tunnel (some pod) w.token w.backend) tunnel.spec.subdomain _ _
        (gather-known env tunnel (some pod) w.token w.backend s m w.has_token w.has_backend)
        (λ s' e. settle-recreated w pod s' k o d e)
