-- ===== src/Controller/Settle/Phases.antt =====
-- internal/controller/jprqtunnel_controller.go: the phase and the requeue with which `reconcile` ends.
use jprq_bek.Base.{
  ◌≡◌, ◌⊎◌, refl, sym, ap, ◌∙◌, Bool, true, false, not, ◌&&◌, ◌||◌, Option, none, some, ℤ, inl, inr,
  arith, String, ok, if◌then◌else◌, is_some,
}
use mathlib.Core.Option.{some-injective}
use jprq_bek.Api.{JprqTunnel, Phase, pending, active, degraded, failed, is_subdomain_busy}
use jprq_bek.Kube.{Pod, ContainerStatus, Deletion, deleted, already_gone, not_deleted}
use jprq_bek.Controller.Classify.{Verdict, agent_status, is_online, classify_pod}
use jprq_bek.Controller.Pods.{desired_pod}
use jprq_bek.Controller.Run.{Env, Run, Requeue, Outcome}
use jprq_bek.Controller.Ends.{Ends, Ends-if, Ends-if_then}
use jprq_bek.Controller.Actions.{
  requeue_waiting, requeue_active, no_requeue, set_not_ready, agent_config, delete_failed,
  apply_retryable, apply_terminal, apply_verdict, go_active,
}
use jprq_bek.Controller.Settle.{
  Facts, both_passed, is_terminating, is_current, check_status, check_ready, check_gates,
  stay_blocked, weigh_verdict, judge,
}

-- `!a || !b`
pub not-passed : (a b : Bool) → (not a || not b) ≡ true → (a && b) ≡ false
not-passed a b h = ground arith

pub passed : (a b : Bool) → (not a || not b) ≡ false → (a && b) ≡ true
passed a b h = ground arith

waiting_phase :
    (b : Bool)
    → ((if b then degraded else pending) ≡ pending) ⊎ ((if b then degraded else pending) ≡ degraded)
waiting_phase true = inr refl
waiting_phase false = inl refl

module _ (env : Env) (tunnel : JprqTunnel) (f : Facts) (assigned : String) where
  -- The pod that runs has the spec that is wanted.
  pub record Current (pod : Pod) : Type 0 where
    pub desired : Pod
    pub built :
        desired_pod env.ext tunnel (agent_config env tunnel assigned f.backend f.token) ≡ ok desired
    pub same : is_current env pod desired ≡ true

  -- Why a tunnel may be called active.
  pub record Online : Type 0 where
    pub pod : Pod
    pub cs : ContainerStatus
    pub both : both_passed f ≡ true
    pub existing : f.existing ≡ some pod
    pub kept : is_terminating f.existing ≡ false
    pub current : Current pod
    pub status : agent_status pod ≡ some cs
    pub online : is_online cs ≡ true

  -- Why a tunnel may be called failed.
  pub record Condemned : Type 0 where
    pub pod : Pod
    pub verdict : Verdict
    pub exit_code : ℤ
    pub existing : f.existing ≡ some pod
    pub judged :
        classify_pod pod tunnel.spec.subdomain_collision_behavior ≡ some (verdict, exit_code)
    pub terminal : verdict.terminal ≡ true

  pub data Ending (rq : Requeue) (phase : Phase) : Type 0 where
    ends_active : phase ≡ active → rq ≡ requeue_active → Online → Ending rq phase
    ends_failed : phase ≡ failed → rq ≡ no_requeue → Condemned → Ending rq phase
    ends_waiting : (phase ≡ pending) ⊎ (phase ≡ degraded) → rq ≡ requeue_waiting → Ending rq phase

  abbrev pub WellEnded : Outcome Requeue × Run → Type 0
  WellEnded = Ends (λ rq s. Ending rq s.status.phase) (λ s. Unit)

  go_active_ends : (s : Run) → Online → WellEnded (go_active env s)
  unfolding go_active
  go_active_ends s o = record { holds = ends_active refl refl o }

  check_status_ends :
      (ocs : Option ContainerStatus) (s : Run)
      → ((cs : ContainerStatus) → ocs ≡ some cs → is_online cs ≡ true → Online)
      → WellEnded (check_status env ocs s)
  unfolding check_status set_not_ready
  check_status_ends none s h = record { holds = ends_waiting (inr refl) refl }
  check_status_ends (some cs) s h =
      Ends-if (is_online cs) _ _ s (λ online. go_active_ends s (h cs refl online))
        (λ offline. record { holds = ends_waiting (inr refl) refl })

  stay_blocked_ends : (s : Run) → WellEnded (stay_blocked env f s)
  unfolding stay_blocked set_not_ready
  stay_blocked_ends s = record { holds = ends_waiting (waiting_phase (is_some f.existing)) refl }

  -- What is known of the pod, if both preconditions hold.
  abbrev pub Basis : Type 0
  Basis =
      both_passed f ≡ true
      → (pod : Pod) × (f.existing ≡ some pod) × (is_terminating f.existing ≡ false) × Current pod

  check_ready_ends :
      (existing : Option Pod) (s : Run)
      → f.existing ≡ existing
      → both_passed f ≡ true
      → Basis
      → WellEnded (check_ready env existing s)
  unfolding check_ready
  check_ready_ends none s e both basis = absurd (ground (arith, basis both))
  check_ready_ends (some pod) s e both basis =
      let (known, e', kept, current) = basis both in
      check_status_ends (agent_status pod) s (λ cs status online. record {
        pod = known;
        cs = cs;
        both = both;
        existing = e';
        kept = kept;
        current = current;
        status = ap agent_status (some-injective known pod (sym e' ∙ e)) ∙ status;
        online = online;
      })

  check_gates_ends : (s : Run) → Basis → WellEnded (check_gates env f s)
  unfolding check_gates
  check_gates_ends s basis =
      Ends-if (not f.token_gate.passed || not f.backend_gate.passed) _ _ s
        (λ shut. stay_blocked_ends s)
        (λ opened. check_ready_ends f.existing s refl (passed _ _ opened) basis)

  delete_failed_ends :
      (answer : Deletion) (s : Run)
      → s.status.phase ≡ failed
      → Condemned
      → WellEnded (delete_failed env answer s)
  unfolding delete_failed
  delete_failed_ends deleted s p c = record { holds = ends_failed p refl c }
  delete_failed_ends already_gone s p c = record { holds = ends_failed p refl c }
  delete_failed_ends (not_deleted e) s p c = record { holds = tt }

  apply_terminal_ends :
      (pod : Pod) (v : Verdict) (s : Run) → Condemned → WellEnded (apply_terminal env pod v s)
  unfolding apply_terminal set_not_ready
  apply_terminal_ends pod v s c =
      Ends-if v.delete_pod _ _ _ (λ stops. delete_failed_ends (env.api.delete_pod pod) _ refl c)
        (λ stays. record { holds = ends_failed refl refl c })

  apply_retryable_ends : (v : Verdict) (s : Run) → WellEnded (apply_retryable env v s)
  unfolding apply_retryable set_not_ready
  apply_retryable_ends v s =
      Ends-if_then (is_subdomain_busy v.reason) _ _ _ s
        (λ busy. record { holds = ends_waiting (inr refl) refl })
        (λ other. record { holds = ends_waiting (inr refl) refl })

  apply_verdict_ends :
      (pod : Pod) (v : Verdict) (code : ℤ) (s : Run)
      → (v.terminal ≡ true → Condemned)
      → WellEnded (apply_verdict env pod v code s)
  unfolding apply_verdict
  apply_verdict_ends pod v code s h =
      Ends-if_then v.token_invalid _ _ _ _ (λ invalid. decide _) (λ valid. decide _)
    where
      decide :
          (s' : Run)
          → WellEnded ((if v.terminal then apply_terminal env pod v else apply_retryable env v) s')
      decide s' =
          Ends-if v.terminal _ _ s' (λ terminal. apply_terminal_ends pod v s' (h terminal))
            (λ retryable. apply_retryable_ends v s')

  weigh_verdict_ends :
      (pod : Pod) (judged : Option (Verdict × ℤ)) (s : Run)
      → f.existing ≡ some pod
      → classify_pod pod tunnel.spec.subdomain_collision_behavior ≡ judged
      → Basis
      → WellEnded (weigh_verdict env f pod judged s)
  unfolding weigh_verdict
  weigh_verdict_ends pod none s e j basis = check_gates_ends s basis
  weigh_verdict_ends pod (some (v, code)) s e j basis = apply_verdict_ends pod v code s (λ terminal.
      record {
        pod = pod;
        verdict = v;
        exit_code = code;
        existing = e;
        judged = j;
        terminal = terminal;
      })

  pub judge_ends :
      (existing : Option Pod) (s : Run)
      → f.existing ≡ existing
      → Basis
      → WellEnded (judge env tunnel f existing s)
  unfolding judge
  judge_ends none s e basis = check_gates_ends s basis
  judge_ends (some pod) s e basis = weigh_verdict_ends pod _ s e refl basis
