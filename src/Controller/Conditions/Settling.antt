-- ===== src/Controller/Conditions/Settling.antt =====
-- internal/controller/jprqtunnel_controller.go: the conditions that the second half of `reconcile` leaves.
use jprq_bek.Base.{
  ◌≡◌, refl, Bool, true, false, not, ◌||◌, Option, none, some, List, ℤ, String, is_some,
  if◌then◌else◌,
}
use jprq_bek.Api.{
  cond_false, JprqTunnel, Phase, active, pending, degraded, failed, Reason, Condition, ready,
  token_ready, backend_ready, is_subdomain_busy,
}
use jprq_bek.Kube.{Pod, ContainerStatus, Deletion, deleted, already_gone, not_deleted}
use jprq_bek.Controller.Classify.{Verdict, agent_status, is_online, classify_pod}
use jprq_bek.Controller.Pods.{desired_pod}
use jprq_bek.Controller.Run.{Env, Run, Requeue, Outcome, call, created, deleted_pod}
use jprq_bek.Controller.Actions.{
  set_not_ready, agent_config, delete_failed, apply_retryable, apply_terminal, apply_verdict,
  go_active,
}
use jprq_bek.Controller.Settle.{
  Facts, both_passed, is_terminating, is_current, check_status, check_ready, check_gates,
  stay_blocked, weigh_verdict, judge, create_answer, create_agent, delete_outdated, recreate_agent,
  match_pod, converge, act, settle,
}
use jprq_bek.Controller.Conditions.{KeepsConditions, condition}
use jprq_bek.Controller.Conditions.Told.{
  Tells, Tells-set, Tells-kept, is_active, status_of, Done, Done-if, Done-if_then, Done-lift,
}

module _ (env : Env) (tunnel : JprqTunnel) (keeps : KeepsConditions env.ext.set_status_condition)
    (token backend : Bool) where
  -- The conditions of the preconditions; the token's may have been taken back.
  pub record Kept (cs : List Condition) : Type 0 where
    pub told : Bool
    pub only : told ≡ true → token ≡ true
    pub tells_token : Tells cs token_ready told
    pub tells_backend : Tells cs backend_ready backend

  pub record Ended (phase : Phase) (cs : List Condition) : Type 0 where
    pub kept : Kept cs
    pub tells_ready : Tells cs ready (is_active phase)

  abbrev pub EndsTold : Outcome Requeue × Run → Type 0
  EndsTold = Done (λ _ s. Ended s.status.phase s.status.conditions)

  -- The condition `Ready` is set, to what the phase says.
  marked :
      (cs : List Condition) (phase : Phase) (why : Reason) (message : String)
      → Kept cs
      → Ended phase (
          env.ext.set_status_condition
            (condition ready (status_of (is_active phase)) why message)
            cs)
  marked cs phase why message k = record {
    kept = record {
      told = k.told;
      only = k.only;
      tells_token = Tells-kept _ keeps _ cs token_ready k.told refl k.tells_token;
      tells_backend = Tells-kept _ keeps _ cs backend_ready backend refl k.tells_backend;
    };
    tells_ready = Tells-set _ keeps _ cs (is_active phase) refl;
  }

  -- The token's condition is taken back.
  taken_back :
      (cs : List Condition) (why : Reason) (message : String)
      → Kept cs
      → Kept (env.ext.set_status_condition (condition token_ready cond_false why message) cs)
  taken_back cs why message k = record {
    told = false;
    only = λ e. cc;
    tells_token = Tells-set _ keeps _ cs false refl;
    tells_backend = Tells-kept _ keeps _ cs backend_ready backend refl k.tells_backend;
  }

  go_active-Told : (s : Run) → Kept s.status.conditions → EndsTold (go_active env s)
  unfolding go_active
  go_active-Told s k = record { holds = marked s.status.conditions active _ _ k }

  check_status-Told :
      (ocs : Option ContainerStatus) (s : Run)
      → Kept s.status.conditions
      → EndsTold (check_status env ocs s)
  unfolding check_status set_not_ready
  check_status-Told none s k = record { holds = marked s.status.conditions degraded _ _ k }
  check_status-Told (some cs) s k =
      Done-if (is_online cs) _ _ s (λ online. go_active-Told s k)
        (λ offline. record { holds = marked s.status.conditions degraded _ _ k })

  check_ready-Told :
      (existing : Option Pod) (s : Run)
      → Kept s.status.conditions
      → EndsTold (check_ready env existing s)
  unfolding check_ready
  check_ready-Told none s k = record { holds = tt }
  check_ready-Told (some pod) s k = check_status-Told (agent_status pod) s k

  marked_waiting :
      (b : Bool) (cs : List Condition) (why : Reason) (message : String)
      → Kept cs
      → Ended
          (if b then degraded else pending)
          (env.ext.set_status_condition (condition ready cond_false why message) cs)
  marked_waiting true cs why message k = marked cs degraded why message k
  marked_waiting false cs why message k = marked cs pending why message k

  stay_blocked-Told :
      (f : Facts) (s : Run) → Kept s.status.conditions → EndsTold (stay_blocked env f s)
  unfolding stay_blocked set_not_ready
  stay_blocked-Told f s k = record {
    holds = marked_waiting (is_some f.existing) s.status.conditions _ _ k;
  }

  check_gates-Told :
      (f : Facts) (s : Run) → Kept s.status.conditions → EndsTold (check_gates env f s)
  unfolding check_gates
  check_gates-Told f s k =
      Done-if (not f.token_gate.passed || not f.backend_gate.passed) _ _ s
        (λ shut. stay_blocked-Told f s k) (λ opened. check_ready-Told f.existing s k)

  delete_failed-Told :
      (answer : Deletion) (s : Run)
      → Ended s.status.phase s.status.conditions
      → EndsTold (delete_failed env answer s)
  unfolding delete_failed
  delete_failed-Told deleted s k = record { holds = k }
  delete_failed-Told already_gone s k = record { holds = k }
  delete_failed-Told (not_deleted e) s k = record { holds = tt }

  apply_terminal-Told :
      (pod : Pod) (v : Verdict) (s : Run)
      → Kept s.status.conditions
      → EndsTold (apply_terminal env pod v s)
  unfolding apply_terminal set_not_ready
  apply_terminal-Told pod v s k =
      let ended = marked s.status.conditions failed v.reason v.message k in
      Done-if v.delete_pod _ _ _ (λ stops. delete_failed-Told (env.api.delete_pod pod) _ ended)
        (λ stays. record { holds = ended })

  apply_retryable-Told :
      (v : Verdict) (s : Run) → Kept s.status.conditions → EndsTold (apply_retryable env v s)
  unfolding apply_retryable set_not_ready
  apply_retryable-Told v s k =
      let ended = marked s.status.conditions degraded v.reason v.message k in
      Done-if_then (is_subdomain_busy v.reason) _ _ _ s (record { holds = ended })
        (record { holds = ended })

  apply_verdict-Told :
      (pod : Pod) (v : Verdict) (code : ℤ) (s : Run)
      → Kept s.status.conditions
      → EndsTold (apply_verdict env pod v code s)
  unfolding apply_verdict
  apply_verdict-Told pod v code s k =
      Done-if_then v.token_invalid _ _ _ _ (decide _ (taken_back s.status.conditions _ _ k))
        (decide _ k)
    where
      decide :
          (s' : Run)
          → Kept s'.status.conditions
          → EndsTold ((if v.terminal then apply_terminal env pod v else apply_retryable env v) s')
      decide s' k' =
          Done-if v.terminal _ _ s' (λ terminal. apply_terminal-Told pod v s' k')
            (λ retryable. apply_retryable-Told v s' k')

  weigh_verdict-Told :
      (f : Facts) (pod : Pod) (judged : Option (Verdict × ℤ)) (s : Run)
      → Kept s.status.conditions
      → EndsTold (weigh_verdict env f pod judged s)
  unfolding weigh_verdict
  weigh_verdict-Told f pod none s k = check_gates-Told f s k
  weigh_verdict-Told f pod (some (v, code)) s k = apply_verdict-Told pod v code s k

  judge-Told :
      (f : Facts) (existing : Option Pod) (s : Run)
      → Kept s.status.conditions
      → EndsTold (judge env tunnel f existing s)
  unfolding judge
  judge-Told f none s k = check_gates-Told f s k
  judge-Told f (some pod) s k =
      weigh_verdict-Told f pod (classify_pod pod tunnel.spec.subdomain_collision_behavior) s k

  create_answer-Told :
      (desired : Pod) (answer : Option String) (s : Run)
      → Kept s.status.conditions
      → EndsTold (create_answer env desired answer s)
  unfolding create_answer set_not_ready
  create_answer-Told desired none s k = record { holds = marked s.status.conditions pending _ _ k }
  create_answer-Told desired (some e) s k = record { holds = tt }

  delete_outdated-Told :
      (pod : Pod) (answer : Deletion) (s : Run)
      → Kept s.status.conditions
      → EndsTold (delete_outdated env pod answer s)
  unfolding delete_outdated set_not_ready
  delete_outdated-Told pod deleted s k = record { holds = marked s.status.conditions pending _ _ k }
  delete_outdated-Told pod already_gone s k = record {
    holds = marked s.status.conditions pending _ _ k;
  }
  delete_outdated-Told pod (not_deleted e) s k = record { holds = tt }

  match_pod-Told :
      (f : Facts) (existing : Option Pod) (desired : Pod) (s : Run)
      → Kept s.status.conditions
      → EndsTold (match_pod env tunnel f existing desired s)
  unfolding match_pod recreate_agent create_agent
  match_pod-Told f none desired s k =
      create_answer-Told desired (env.api.create_pod desired) (call (created desired) s).1 k
  match_pod-Told f (some pod) desired s k =
      Done-if (is_current env pod desired) _ _ s (λ same. judge-Told f (some pod) s k)
        (λ outdated.
          delete_outdated-Told pod (env.api.delete_pod pod) (call (deleted_pod pod) s).1 k)

  converge-Told :
      (f : Facts) (s : Run) → Kept s.status.conditions → EndsTold (converge env tunnel f s)
  unfolding converge
  converge-Told f s k =
      Done-if (both_passed f) _ _ s
        (λ both.
          Done-lift
            (desired_pod env.ext tunnel
              (agent_config env tunnel s.status.assigned_subdomain f.backend f.token))
            (match_pod env tunnel f f.existing) s
            (λ desired. match_pod-Told f f.existing desired s k))
        (λ shut. judge-Told f f.existing s k)

  act-Told : (f : Facts) (s : Run) → Kept s.status.conditions → EndsTold (act env tunnel f s)
  unfolding act set_not_ready
  act-Told f s k =
      Done-if (is_terminating f.existing) _ _ s
        (λ going. record { holds = marked s.status.conditions degraded _ _ k })
        (λ stays. converge-Told f s k)

  pub settle-Told :
      (f : Facts) (s : Run) → Kept s.status.conditions → EndsTold (settle env tunnel f s)
  unfolding settle
  settle-Told f s k = Done-if_then f.backend_gate.passed _ _ _ s (act-Told f _ k) (act-Told f _ k)
