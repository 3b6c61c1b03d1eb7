-- ===== src/Controller/Reconcile/Report.antt =====
-- internal/controller/jprqtunnel_controller.go, `reconcile`: what the phase that it reports says of the
-- world.
use jprq_bek.Base.{
  ◌≡◌, ◌⊎◌, refl, ap, ◌∙◌, String, true, false, List, ℕ, ℤ, Option, none, some, arith, ok,
}
use mathlib.Core.Option.{some-injective, none-ne-some}
use jprq_bek.Api.{JprqTunnel, pending, active, degraded, failed}
use jprq_bek.Kube.{Pod, ContainerStatus, Fetched, found, missing, refused}
use jprq_bek.Controller.Classify.{Verdict, agent_status, classify_pod}
use jprq_bek.Controller.Pods.{pod_name, desired_pod}
use jprq_bek.Controller.Run.{Env, Run, Requeue, got_pod}
use jprq_bek.Controller.Ends.{Ends, Ends-continue, Ends-mono}
use jprq_bek.Controller.Calls.{Reads, Reads-refl, Reads-kept, Reads-one}
use jprq_bek.Controller.Token.Evidence.{HasToken, check_token-Ends}
use jprq_bek.Controller.Backend.{BackendInfo}
use jprq_bek.Controller.Backend.Evidence.{HasBackend, check_backend-Ends}
use jprq_bek.Controller.Actions.{requeue_waiting, requeue_active, no_requeue, agent_config}
use jprq_bek.Controller.Settle.{Facts, is_current, is_terminating}
use jprq_bek.Controller.Settle.Phases.{Ending, ends_active, ends_failed, ends_waiting}
use jprq_bek.Controller.Settle.Endings.{settle_ends}
use jprq_bek.Controller.Reconcile.{
  pod_answer, agent_pod, observe_pod, record_restarts, gather, reconcile,
}

module _ (env : Env) (tunnel : JprqTunnel) where
  -- What the API server says of the agent pod.
  abbrev pub PodRead : Option Pod → Type 0
  PodRead none = env.api.get_pod env.operator_namespace (pod_name tunnel.name) ≡ missing
  PodRead (some pod) = env.api.get_pod env.operator_namespace (pod_name tunnel.name) ≡ found pod

  record PodSeen (s₀ : Run) (existing : Option Pod) (s : Run) : Type 0 where
    read : PodRead existing
    reads : Reads env s₀ s

  pod_answer-Ends :
      (name : String) (answer : Fetched Pod) (s₀ s : Run)
      → Reads env s₀ s
      → env.api.get_pod env.operator_namespace (pod_name tunnel.name) ≡ answer
      → Ends (PodSeen s₀) (Reads env s₀) (pod_answer env name answer s)
  unfolding pod_answer
  pod_answer-Ends name (found pod) s₀ s q h = record { holds = record { read = h; reads = q } }
  pod_answer-Ends name missing s₀ s q h = record { holds = record { read = h; reads = q } }
  pod_answer-Ends name (refused e) s₀ s q h = record { holds = q }

  -- What has been read, when everything has been read.
  pub record Gathered (s₀ : Run) (f : Facts) (s : Run) : Type 0 where
    pub pod : PodRead f.existing
    pub has_token : f.token_gate.passed ≡ true → HasToken env tunnel f.token
    pub has_backend : f.backend_gate.passed ≡ true → HasBackend env tunnel f.backend
    pub reads : Reads env s₀ s

  record_restarts-Ends :
      (s₀ : Run) (ocs : Option ContainerStatus) (s : Run)
      → Reads env s₀ s
      → Ends (λ _. Reads env s₀) (Reads env s₀) (record_restarts env ocs s)
  record_restarts-Ends s₀ none s q = record { holds = q }
  record_restarts-Ends s₀ (some cs) s q = record { holds = Reads-kept q refl refl }

  observe_pod-Ends :
      (s₀ : Run) (existing : Option Pod) (s : Run)
      → Reads env s₀ s
      → Ends (λ _. Reads env s₀) (Reads env s₀) (observe_pod env existing s)
  unfolding observe_pod
  observe_pod-Ends s₀ none s q = record { holds = Reads-kept q refl refl }
  observe_pod-Ends s₀ (some pod) s q =
      record_restarts-Ends s₀ (agent_status pod) _ (Reads-kept q refl refl)

  -- The state in which `reconcile` starts to read.
  abbrev pub assigned_start : Run → Run
  assigned_start s = record s {
    status = record s.status { assigned_subdomain = tunnel.spec.subdomain };
  }

  -- Whether it succeeds or fails, `gather` only reads, and reads pods and Secrets of the operator
  -- namespace alone.
  pub gather-Ends :
      (s : Run)
      → Ends (Gathered (assigned_start s)) (Reads env (assigned_start s)) (gather env tunnel s)
  unfolding gather agent_pod
  gather-Ends s =
      let s₀ = assigned_start s in
      Ends-continue _ _
        (pod_answer-Ends (pod_name tunnel.name) _ s₀ _
          (Reads-one (got_pod env.operator_namespace (pod_name tunnel.name)) (Reads-refl env s₀)
            refl refl refl)
          refl)
        λ existing s₁ seen. Ends-continue _ _ (observe_pod-Ends s₀ existing s₁ seen.reads) λ _ s₂ q.
          Ends-continue _ _ (check_token-Ends env tunnel s₀ s₂ q) λ token s₃ checked.
            Ends-continue _ _ (check_backend-Ends env tunnel s₀ s₃ checked.reads)
              λ backend s₄ resolved. record {
                holds = record {
                  pod = seen.read;
                  has_token = checked.evidence;
                  has_backend = resolved.evidence;
                  reads = resolved.reads;
                };
              }

  -- Why the tunnel is called active.
  pub record Serving : Type 0 where
    pub token : List ℕ
    pub backend : BackendInfo
    pub pod : Pod
    pub cs : ContainerStatus
    pub desired : Pod
    pub has_token : HasToken env tunnel token
    pub has_backend : HasBackend env tunnel backend
    pub read : env.api.get_pod env.operator_namespace (pod_name tunnel.name) ≡ found pod
    pub kept : pod.deletion_timestamp ≡ none
    pub status : agent_status pod ≡ some cs
    pub running : cs.state.running ≡ true
    pub ready : cs.ready ≡ true
    pub built :
        desired_pod env.ext tunnel (agent_config env tunnel tunnel.spec.subdomain backend token)
        ≡ ok desired
    pub current : is_current env pod desired ≡ true

  -- Why the tunnel is called failed.
  pub record Rejected : Type 0 where
    pub pod : Pod
    pub verdict : Verdict
    pub exit_code : ℤ
    pub read : env.api.get_pod env.operator_namespace (pod_name tunnel.name) ≡ found pod
    pub judged :
        classify_pod pod tunnel.spec.subdomain_collision_behavior ≡ some (verdict, exit_code)
    pub terminal : verdict.terminal ≡ true

  pub data Report (rq : Requeue) (s : Run) : Type 0 where
    reports_active : s.status.phase ≡ active → rq ≡ requeue_active → Serving → Report rq s
    reports_failed : s.status.phase ≡ failed → rq ≡ no_requeue → Rejected → Report rq s
    reports_waiting :
        (s.status.phase ≡ pending) ⊎ (s.status.phase ≡ degraded)
        → rq ≡ requeue_waiting
        → Report rq s

  pub PodRead-some :
      (existing : Option Pod) (pod : Pod)
      → existing ≡ some pod
      → PodRead existing
      → env.api.get_pod env.operator_namespace (pod_name tunnel.name) ≡ found pod
  PodRead-some none pod e h = absurd (none-ne-some pod e)
  PodRead-some (some p) pod e h = h ∙ ap found (some-injective p pod e)

  pub kept_pod :
      (existing : Option Pod) (pod : Pod)
      → existing ≡ some pod
      → is_terminating existing ≡ false
      → pod.deletion_timestamp ≡ none
  kept_pod existing pod e h = ground arith

  Ending-Report :
      (f : Facts) (start before s : Run) (rq : Requeue)
      → Gathered start f before
      → Ending env tunnel f tunnel.spec.subdomain rq s.status.phase
      → Report rq s
  Ending-Report f start before s rq g (ends_active p r o) = reports_active p r (record {
    token = f.token;
    backend = f.backend;
    pod = o.pod;
    cs = o.cs;
    desired = o.current.desired;
    has_token = g.has_token (ground (arith, o.both));
    has_backend = g.has_backend (ground (arith, o.both));
    read = PodRead-some f.existing o.pod o.existing g.pod;
    kept = kept_pod f.existing o.pod o.existing o.kept;
    status = o.status;
    running = ground (arith, o.online);
    ready = ground (arith, o.online);
    built = o.current.built;
    current = o.current.same;
  })
  Ending-Report f start before s rq g (ends_failed p r c) = reports_failed p r (record {
    pod = c.pod;
    verdict = c.verdict;
    exit_code = c.exit_code;
    read = PodRead-some f.existing c.pod c.existing g.pod;
    judged = c.judged;
    terminal = c.terminal;
  })
  Ending-Report f start before s rq g (ends_waiting p r) = reports_waiting p r

  -- The phase is honest. Whatever the API server answers, `reconcile` does not panic, and when it returns
  -- no error: the phase is active, with a requeue after 300 seconds, only if the Secret holds a token
  -- that is not blank, the Service declares the port and has a ready endpoint, and the agent pod is not
  -- being deleted, runs, is ready, and has the hash of the pod that these inputs ask for; the phase is
  -- failed, with no requeue, only if the agent pod has got a terminal verdict; otherwise it is pending
  -- or degraded, with a requeue after 60 seconds.
  pub reconcile_honest : (s : Run) → Ends Report (λ _. Unit) (reconcile env tunnel s)
  unfolding reconcile
  reconcile_honest s =
      Ends-continue _ _ (Ends-mono _ (λ _ _ g. g) (λ _ _. tt) (gather-Ends s)) λ f s₁ g.
        Ends-mono _ (λ rq s₂ e. Ending-Report f (assigned_start s) s₁ s₂ rq g e) (λ _ _. tt)
          (settle_ends env tunnel f tunnel.spec.subdomain s₁ g.reads.assigned_kept)
