-- ===== src/Controller/Reconcile/Known.antt =====
-- internal/controller/jprqtunnel_controller.go, the reading half of `reconcile`: what it finds in a world
-- where both preconditions hold.
use mathlib.Core.Path.{subst}
use jprq_bek.Base.{
  ℕ, sym, ◌∙◌, ◌≡◌, ◌≢◌, refl, String, false, List, [], Option, none, some, trim_space, is_nil,
  arith,
}
use jprq_bek.Api.{JprqTunnel}
use jprq_bek.Kube.{Pod, ContainerStatus}
use jprq_bek.Controller.Classify.{agent_status}
use jprq_bek.Controller.Run.{Env, Run, Outcome, M, done, error, panic, continue_with}
use jprq_bek.Controller.Ends.{Ends}
use jprq_bek.Controller.Gate.{open_gate}
use jprq_bek.Controller.Token.{check_token, check_secret, check_value}
use jprq_bek.Controller.Token.Evidence.{HasToken}
use jprq_bek.Controller.Backend.{
  BackendInfo, check_backend, check_service, check_port, check_endpoints, has_ready_endpoint,
  report_endpoints,
}
use jprq_bek.Controller.Backend.Evidence.{HasBackend}
use jprq_bek.Controller.Settle.{Facts}
use jprq_bek.Controller.Reconcile.{agent_pod, pod_answer, observe_pod, record_restarts, gather}
use jprq_bek.Controller.Reconcile.Report.{PodRead}

-- The step succeeds with this value, and leaves this subdomain in the status.
abbrev pub Yields : {A : Type 0} → A → String → Outcome A × Run → Type 0
Yields a assigned = Ends (λ r s. (r ≡ a) × (s.status.assigned_subdomain ≡ assigned)) (λ _. ⊥)

pub Yields-continue :
    {A B : Type 0} {P : A → Run → Type 0} {E : Run → Type 0} (b : B) (assigned : String)
    (o : Outcome B × Run) (k : B → M A)
    → Yields b assigned o
    → ((s' : Run) → s'.status.assigned_subdomain ≡ assigned → Ends P E (k b s'))
    → Ends P E (continue_with o k)
Yields-continue {P = P} {E = E} b assigned (done a, s') k y h =
    subst (λ r. Ends P E (k r s')) (sym y.holds.0) (h s' y.holds.1)
Yields-continue b assigned (error e, s') k y h = absurd y.holds
Yields-continue b assigned (panic, s') k y h = absurd y.holds

is_nil-false : (l : List ℕ) → l ≢ [] → is_nil l ≡ false
is_nil-false l h = ground (arith, h)

module _ (env : Env) (tunnel : JprqTunnel) where
  check_token-Yields :
      (token : List ℕ) (s : Run)
      → HasToken env tunnel token
      → Yields (token, open_gate) s.status.assigned_subdomain (check_token env tunnel s)
  unfolding check_token check_secret check_value
  check_token-Yields token s h =
      rw (h.read, h.held, is_nil-false (trim_space token) h.not_blank)
        (record { holds = (refl, refl) })

  pub check_backend-Yields :
      (backend : BackendInfo) (s : Run)
      → HasBackend env tunnel backend
      → Yields (backend, open_gate) s.status.assigned_subdomain (check_backend env tunnel s)
  unfolding check_backend check_service check_port check_endpoints has_ready_endpoint
      report_endpoints
  check_backend-Yields backend s h =
      rw (h.read, h.resolved, h.listed, h.serving, h.info) (record { holds = (refl, refl) })

  agent_pod-Yields :
      (existing : Option Pod) (s : Run)
      → PodRead env tunnel existing
      → Yields existing s.status.assigned_subdomain (agent_pod env tunnel s)
  unfolding agent_pod pod_answer
  agent_pod-Yields none s h = rw h (record { holds = (refl, refl) })
  agent_pod-Yields (some pod) s h = rw h (record { holds = (refl, refl) })

  record_restarts-Yields :
      (ocs : Option ContainerStatus) (s : Run)
      → Yields tt s.status.assigned_subdomain (record_restarts env ocs s)
  record_restarts-Yields none s = record { holds = (refl, refl) }
  record_restarts-Yields (some cs) s = record { holds = (refl, refl) }

  observe_pod-Yields :
      (existing : Option Pod) (s : Run)
      → Yields tt s.status.assigned_subdomain (observe_pod env existing s)
  unfolding observe_pod
  observe_pod-Yields none s = record { holds = (refl, refl) }
  observe_pod-Yields (some pod) s = record_restarts-Yields (agent_status pod) _

  -- What `gather` finds.
  abbrev pub known : Option Pod → List ℕ → BackendInfo → Facts
  known existing token backend = record {
    existing = existing;
    token = token;
    token_gate = open_gate;
    backend = backend;
    backend_gate = open_gate;
  }

  -- Where a pod or its absence is read, and both preconditions hold, `gather` finds just that.
  pub gather-known :
      (existing : Option Pod) (token : List ℕ) (backend : BackendInfo) (s : Run)
      → PodRead env tunnel existing
      → HasToken env tunnel token
      → HasBackend env tunnel backend
      → Yields (known existing token backend) tunnel.spec.subdomain (gather env tunnel s)
  unfolding gather
  gather-known existing token backend s p t b =
      Yields-continue existing tunnel.spec.subdomain _ _ (agent_pod-Yields existing _ p) λ s₁ e₁.
        Yields-continue tt s₁.status.assigned_subdomain _ _ (observe_pod-Yields existing s₁)
          λ s₂ e₂.
            Yields-continue (token, open_gate) s₂.status.assigned_subdomain _ _
              (check_token-Yields token s₂ t)
              λ s₃ e₃.
                Yields-continue (backend, open_gate) s₃.status.assigned_subdomain _ _
                  (check_backend-Yields backend s₃ b)
                  λ s₄ e₄. record { holds = (refl, e₄ ∙ e₃ ∙ e₂ ∙ e₁) }
