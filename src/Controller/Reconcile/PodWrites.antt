-- ===== src/Controller/Reconcile/PodWrites.antt =====
-- internal/controller/jprqtunnel_controller.go, `reconcile`: the pods that it creates and deletes, from
-- what the API server says.
use mathlib.Core.List.{append-nil}
use jprq_bek.Base.{
  ◌≡◌, ◌∙◌, sym, ap, ◌&&◌, ◌++◌, true, false, List, [], ◌∷◌, ℕ, ℤ, Option, none, some, arith, ok,
}
use jprq_bek.Api.{JprqTunnel}
use jprq_bek.Kube.{Pod, found, missing}
use jprq_bek.Controller.Classify.{Verdict, classify_pod}
use jprq_bek.Controller.Pods.{pod_name, desired_pod}
use jprq_bek.Controller.Run.{Env, Run}
use jprq_bek.Controller.Ends.{Ends, Ends-continue, Ends-mono}
use jprq_bek.Controller.Calls.{
  PodWrite, create, delete, pod_writes, Wrote-refl, Reads, Reads-pod_writes,
}
use jprq_bek.Controller.Token.Evidence.{HasToken}
use jprq_bek.Controller.Backend.{BackendInfo}
use jprq_bek.Controller.Backend.Evidence.{HasBackend}
use jprq_bek.Controller.Actions.{agent_config}
use jprq_bek.Controller.Settle.{Facts, is_current}
use jprq_bek.Controller.Settle.Writes.{
  Justified, wrote_nothing, wrote_new, deleted_outdated, deleted_rejected, Written,
}
use jprq_bek.Controller.Reconcile.{reconcile}
use jprq_bek.Controller.Reconcile.Report.{
  PodRead, Gathered, assigned_start, gather-Ends, PodRead-some, kept_pod,
}
use jprq_bek.Controller.Settle.Converging.{settle_writes}

module _ (env : Env) (tunnel : JprqTunnel) where
  -- Both preconditions hold, and ask for this pod.
  pub record Wanted (desired : Pod) : Type 0 where
    pub token : List ℕ
    pub backend : BackendInfo
    pub has_token : HasToken env tunnel token
    pub has_backend : HasBackend env tunnel backend
    pub built :
        desired_pod env.ext tunnel (agent_config env tunnel tunnel.spec.subdomain backend token)
        ≡ ok desired

  -- The pod that the API server has for the tunnel, and that is not being deleted.
  abbrev pub Live : Pod → Type 0
  Live pod =
      (env.api.get_pod env.operator_namespace (pod_name tunnel.name) ≡ found pod)
      × (pod.deletion_timestamp ≡ none)

  pub data PodWriteReason : List PodWrite → Type 0 where
    no_write : PodWriteReason []
    creates_missing :
        {desired : Pod}
        → env.api.get_pod env.operator_namespace (pod_name tunnel.name) ≡ missing
        → Wanted desired
        → PodWriteReason (create desired ∷ [])
    deletes_outdated :
        {pod desired : Pod}
        → Live pod
        → Wanted desired
        → is_current env pod desired ≡ false
        → PodWriteReason (delete pod ∷ [])
    deletes_rejected :
        {pod : Pod} {v : Verdict} {code : ℤ}
        → Live pod
        → classify_pod pod tunnel.spec.subdomain_collision_behavior ≡ some (v, code)
        → v.terminal ≡ true
        → PodWriteReason (delete pod ∷ [])

  pub record PodsWritten (s t : Run) : Type 0 where
    pub writes : List PodWrite
    pub made : pod_writes t.calls ≡ pod_writes s.calls ++ writes
    pub why : PodWriteReason writes

  PodRead-none :
      (existing : Option Pod)
      → existing ≡ none
      → PodRead env tunnel existing
      → env.api.get_pod env.operator_namespace (pod_name tunnel.name) ≡ missing
  PodRead-none none e h = h
  PodRead-none (some p) e h = cc

  wanted :
      (f : Facts) (s₀ s : Run) (desired : Pod)
      → Gathered env tunnel s₀ f s
      → (f.token_gate.passed && f.backend_gate.passed) ≡ true
      → desired_pod env.ext tunnel (agent_config env tunnel tunnel.spec.subdomain f.backend f.token)
        ≡ ok desired
      → Wanted desired
  wanted f s₀ s desired g both built = record {
    token = f.token;
    backend = f.backend;
    has_token = g.has_token (ground arith);
    has_backend = g.has_backend (ground arith);
    built = built;
  }

  Justified-reason :
      (f : Facts) (s₀ s : Run) (writes : List PodWrite)
      → Gathered env tunnel s₀ f s
      → Justified env tunnel f tunnel.spec.subdomain s writes
      → PodWriteReason writes
  Justified-reason f s₀ s writes g wrote_nothing = no_write
  Justified-reason f s₀ s writes g (wrote_new {desired} e both built) =
      creates_missing (PodRead-none f.existing e g.pod) (wanted f s₀ s desired g both built)
  Justified-reason f s₀ s writes g (deleted_outdated {pod} {desired} e kept both built outdated) =
      deletes_outdated
        (PodRead-some env tunnel f.existing pod e g.pod, kept_pod env tunnel f.existing pod e kept)
        (wanted f s₀ s desired g both built) outdated
  Justified-reason f s₀ s writes g
        (deleted_rejected {pod} {v} {code} e kept judged terminal stops) =
      deletes_rejected
        (PodRead-some env tunnel f.existing pod e g.pod, kept_pod env tunnel f.existing pod e kept)
        judged terminal

  Reads-PodsWritten : (s t : Run) → Reads env (assigned_start env tunnel s) t → PodsWritten s t
  Reads-PodsWritten s t q = record {
    writes = [];
    made =
        Reads-pod_writes env (assigned_start env tunnel s) t q
        ∙ sym (append-nil (pod_writes s.calls));
    why = no_write;
  }

  Written-PodsWritten :
      (f : Facts) (s s₁ t : Run)
      → Gathered env tunnel (assigned_start env tunnel s) f s₁
      → Written env tunnel f tunnel.spec.subdomain s₁ t
      → PodsWritten s t
  Written-PodsWritten f s s₁ t g w = record {
    writes = w.writes;
    made =
        w.made.total
        ∙ ap (λ l. l ++ w.writes) (Reads-pod_writes env (assigned_start env tunnel s) s₁ g.reads);
    why = Justified-reason f (assigned_start env tunnel s) s₁ w.writes g w.why;
  }

  -- A reconciliation writes at most one pod, whether it returns a value or an error. It creates one
  -- only where the API server has none and both preconditions hold, and it is the pod that they ask
  -- for; it deletes one only if that is the tunnel's pod, is not being deleted already, and either
  -- differs in its hash from the pod that both preconditions ask for, or has got a terminal verdict.
  -- So it never creates and deletes at once, and no pod is deleted because a precondition fails.
  pub reconcile_pod_writes :
      (s : Run) → Ends (λ _. PodsWritten s) (PodsWritten s) (reconcile env tunnel s)
  unfolding reconcile
  reconcile_pod_writes s =
      Ends-continue _ _
        (Ends-mono _ (λ _ _ g. g) (λ t q. Reads-PodsWritten s t q) (gather-Ends env tunnel s))
        λ f s₁ g.
          Ends-mono _ (λ _ t w. Written-PodsWritten f s s₁ t g w)
            (λ t w. Written-PodsWritten f s s₁ t g w)
            (settle_writes env tunnel f tunnel.spec.subdomain s₁ s₁ g.reads.assigned_kept
              (Wrote-refl s₁.calls))
