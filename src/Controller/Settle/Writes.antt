-- ===== src/Controller/Settle/Writes.antt =====
-- internal/controller/jprqtunnel_controller.go: which pods `reconcile` creates and deletes, and why.
use jprq_bek.Base.{
  ◌≡◌, refl, true, false, not, ◌||◌, List, [], ◌∷◌, ◌++◌, Option, none, some, ℤ, String, ok,
  if◌then◌else◌,
}
use jprq_bek.Api.{JprqTunnel, is_subdomain_busy}
use jprq_bek.Kube.{Pod, ContainerStatus, Deletion, deleted, already_gone, not_deleted}
use jprq_bek.JprqConfig.{domain}
use jprq_bek.Controller.Classify.{Verdict, agent_status, is_online, classify_pod}
use jprq_bek.Controller.Pods.{desired_pod}
use jprq_bek.Controller.Run.{Env, Run, Requeue, Outcome, deleted_pod}
use jprq_bek.Controller.Ends.{Ends, Ends-if, Ends-if_then}
use jprq_bek.Controller.Calls.{
  PodWrite, create, delete, Wrote, Wrote-event, Wrote-fetched, Wrote-first,
}
use jprq_bek.Controller.Actions.{
  set_not_ready, agent_config, delete_failed, apply_retryable, apply_terminal, apply_verdict,
  go_active,
}
use jprq_bek.Controller.Settle.{
  Facts, both_passed, is_terminating, is_current, check_status, check_ready, check_gates,
  stay_blocked, weigh_verdict, judge,
}
use jprq_bek.Controller.Settle.Phases.{passed}

module _ (env : Env) (tunnel : JprqTunnel) (f : Facts) (assigned : String) (s₀ : Run) where
  -- The one pod write of a reconciliation, if it makes one, with its reason.
  pub data Justified : List PodWrite → Type 0 where
    wrote_nothing : Justified []
    wrote_new :
        {desired : Pod}
        → f.existing ≡ none
        → both_passed f ≡ true
        → desired_pod env.ext tunnel (agent_config env tunnel assigned f.backend f.token)
          ≡ ok desired
        → Justified (create desired ∷ [])
    deleted_outdated :
        {pod desired : Pod}
        → f.existing ≡ some pod
        → is_terminating f.existing ≡ false
        → both_passed f ≡ true
        → desired_pod env.ext tunnel (agent_config env tunnel assigned f.backend f.token)
          ≡ ok desired
        → is_current env pod desired ≡ false
        → Justified (delete pod ∷ [])
    deleted_rejected :
        {pod : Pod} {v : Verdict} {code : ℤ}
        → f.existing ≡ some pod
        → is_terminating f.existing ≡ false
        → classify_pod pod tunnel.spec.subdomain_collision_behavior ≡ some (v, code)
        → v.terminal ≡ true
        → v.delete_pod ≡ true
        → Justified (delete pod ∷ [])

  pub record Written (s : Run) : Type 0 where
    pub writes : List PodWrite
    pub made : Wrote writes s₀.calls s.calls
    pub why : Justified writes

  abbrev pub WellWritten : Outcome Requeue × Run → Type 0
  WellWritten = Ends (λ _. Written) Written

  pub nothing : {s : Run} → Wrote [] s₀.calls s.calls → Written s
  nothing h = record { writes = []; made = h; why = wrote_nothing }

  go_active_writes : (s : Run) → Wrote [] s₀.calls s.calls → WellWritten (go_active env s)
  unfolding go_active
  go_active_writes s h = record {
    holds = nothing (Wrote-fetched (domain env.api.get_config s.resolver).2 h);
  }

  check_status_writes :
      (ocs : Option ContainerStatus) (s : Run)
      → Wrote [] s₀.calls s.calls
      → WellWritten (check_status env ocs s)
  unfolding check_status set_not_ready
  check_status_writes none s h = record { holds = nothing h }
  check_status_writes (some cs) s h =
      Ends-if (is_online cs) _ _ s (λ online. go_active_writes s h)
        (λ offline. record { holds = nothing h })

  check_ready_writes :
      (existing : Option Pod) (s : Run)
      → f.existing ≡ existing
      → (both_passed f ≡ true → f.existing ≡ none → ⊥)
      → both_passed f ≡ true
      → Wrote [] s₀.calls s.calls
      → WellWritten (check_ready env existing s)
  unfolding check_ready
  check_ready_writes none s e present both h = absurd (present both e)
  check_ready_writes (some pod) s e present both h = check_status_writes (agent_status pod) s h

  check_gates_writes :
      (s : Run)
      → (both_passed f ≡ true → f.existing ≡ none → ⊥)
      → Wrote [] s₀.calls s.calls
      → WellWritten (check_gates env f s)
  unfolding check_gates stay_blocked set_not_ready
  check_gates_writes s present h =
      Ends-if (not f.token_gate.passed || not f.backend_gate.passed) _ _ s
        (λ shut. record { holds = nothing h })
        (λ opened. check_ready_writes f.existing s refl present (passed _ _ opened) h)

  delete_failed_writes :
      (answer : Deletion) (s : Run) → Written s → WellWritten (delete_failed env answer s)
  unfolding delete_failed
  delete_failed_writes deleted s w = record {
    holds = record { writes = w.writes; made = w.made; why = w.why };
  }
  delete_failed_writes already_gone s w = record {
    holds = record { writes = w.writes; made = w.made; why = w.why };
  }
  delete_failed_writes (not_deleted e) s w = record { holds = w }

  apply_retryable_writes :
      (v : Verdict) (s : Run) → Wrote [] s₀.calls s.calls → WellWritten (apply_retryable env v s)
  unfolding apply_retryable set_not_ready
  apply_retryable_writes v s h =
      Ends-if_then (is_subdomain_busy v.reason) _ _ _ s
        (λ busy. record { holds = nothing (Wrote-event _ h) })
        (λ other. record { holds = nothing h })

  -- The pod that is there, and is not going away.
  abbrev Kept : Pod → Type 0
  Kept pod = (f.existing ≡ some pod) × (is_terminating f.existing ≡ false)

  -- The call that deletes the pod of a terminal verdict.
  rejected_write :
      (pod : Pod) (v : Verdict) (code : ℤ) (s : Run)
      → Kept pod
      → classify_pod pod tunnel.spec.subdomain_collision_behavior ≡ some (v, code)
      → v.terminal ≡ true
      → v.delete_pod ≡ true
      → Wrote [] s₀.calls s.calls
      → Written (record s { calls = s.calls ++ deleted_pod pod ∷ [] })
  rejected_write pod v code s k judged terminal stops h = record {
    writes = delete pod ∷ [];
    made = Wrote-first (deleted_pod pod) refl h;
    why = deleted_rejected k.0 k.1 judged terminal stops;
  }

  apply_terminal_writes :
      (pod : Pod) (v : Verdict) (code : ℤ) (s : Run)
      → Kept pod
      → classify_pod pod tunnel.spec.subdomain_collision_behavior ≡ some (v, code)
      → v.terminal ≡ true
      → Wrote [] s₀.calls s.calls
      → WellWritten (apply_terminal env pod v s)
  unfolding apply_terminal set_not_ready
  apply_terminal_writes pod v code s k judged terminal h =
      Ends-if v.delete_pod _ _ _
        (λ stops.
          delete_failed_writes (env.api.delete_pod pod) _
            (rejected_write pod v code _ k judged terminal stops (Wrote-event _ h)))
        (λ stays. record { holds = nothing (Wrote-event _ h) })

  apply_verdict_writes :
      (pod : Pod) (v : Verdict) (code : ℤ) (s : Run)
      → Kept pod
      → classify_pod pod tunnel.spec.subdomain_collision_behavior ≡ some (v, code)
      → Wrote [] s₀.calls s.calls
      → WellWritten (apply_verdict env pod v code s)
  unfolding apply_verdict
  apply_verdict_writes pod v code s k judged h =
      Ends-if_then v.token_invalid _ _ _ _ (λ invalid. decide _ h) (λ valid. decide _ h)
    where
      decide :
          (s' : Run)
          → Wrote [] s₀.calls s'.calls
          → WellWritten
              ((if v.terminal then apply_terminal env pod v else apply_retryable env v) s')
      decide s' h' =
          Ends-if v.terminal _ _ s'
            (λ terminal. apply_terminal_writes pod v code s' k judged terminal h')
            (λ retryable. apply_retryable_writes v s' h')

  weigh_verdict_writes :
      (pod : Pod) (judged : Option (Verdict × ℤ)) (s : Run)
      → Kept pod
      → classify_pod pod tunnel.spec.subdomain_collision_behavior ≡ judged
      → Wrote [] s₀.calls s.calls
      → WellWritten (weigh_verdict env f pod judged s)
  unfolding weigh_verdict
  weigh_verdict_writes pod none s k j h = check_gates_writes s (λ _ e. cc (k.0)) h
  weigh_verdict_writes pod (some (v, code)) s k j h = apply_verdict_writes pod v code s k j h

  pub judge_writes :
      (existing : Option Pod) (s : Run)
      → f.existing ≡ existing
      → is_terminating f.existing ≡ false
      → (both_passed f ≡ true → f.existing ≡ none → ⊥)
      → Wrote [] s₀.calls s.calls
      → WellWritten (judge env tunnel f existing s)
  unfolding judge
  judge_writes none s e kept present h = check_gates_writes s present h
  judge_writes (some pod) s e kept present h = weigh_verdict_writes pod _ s (e, kept) refl h
