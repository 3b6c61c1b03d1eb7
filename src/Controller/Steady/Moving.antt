-- ===== src/Controller/Steady/Moving.antt =====
-- internal/controller/jprqtunnel_controller.go, the acting half of `reconcile`, where it writes a pod.
use jprq_bek.Base.{◌≡◌, ◌≢◌, true, [], ◌∷◌, String, Option, none, some, ℤ, if◌then◌else◌}
use jprq_bek.Api.{failed}
use jprq_bek.Kube.{Pod, Deletion, deleted, already_gone, not_deleted}
use jprq_bek.Controller.Classify.{Verdict}
use jprq_bek.Controller.Run.{Env, Run, call, created, deleted_pod, recorded}
use jprq_bek.Controller.Calls.{pod_writes}
use jprq_bek.Controller.Actions.{
  warning_event, set_not_ready, delete_failed, apply_retryable, apply_terminal, apply_verdict,
}
use jprq_bek.Controller.Settle.{
  create_agent, create_answer, recreate_agent, delete_outdated, announce_recreation,
}
use jprq_bek.Controller.Steady.Uniform.{Moves, Moves-if, Moves-if_then, Moves-append, Moves-last}

created_moves : (pod : Pod) → pod_writes (created pod ∷ []) ≢ []
created_moves pod h = cc

deleted_moves : (pod : Pod) → pod_writes (deleted_pod pod ∷ []) ≢ []
deleted_moves pod h = cc

module _ (env : Env) where
  create_answer-Moves :
      (desired : Pod) (reply : Option String) (s : Run)
      → pod_writes s.calls ≢ []
      → Moves (create_answer env desired reply s)
  unfolding create_answer set_not_ready
  create_answer-Moves desired (some e) s h = h
  create_answer-Moves desired none s h = Moves-append s.calls (recorded _ ∷ []) h

  pub create_agent-Moves : (desired : Pod) (s : Run) → Moves (create_agent env desired s)
  unfolding create_agent
  create_agent-Moves desired s =
      create_answer-Moves desired (env.api.create_pod desired) (call (created desired) s).1
        (Moves-last s.calls (created desired) (created_moves desired))

  delete_outdated-Moves :
      (pod : Pod) (reply : Deletion) (s : Run)
      → pod_writes s.calls ≢ []
      → Moves (delete_outdated env pod reply s)
  unfolding delete_outdated announce_recreation set_not_ready
  delete_outdated-Moves pod (not_deleted e) s h = h
  delete_outdated-Moves pod deleted s h = Moves-append s.calls (recorded _ ∷ []) h
  delete_outdated-Moves pod already_gone s h = Moves-append s.calls (recorded _ ∷ []) h

  pub recreate_agent-Moves : (pod : Pod) (s : Run) → Moves (recreate_agent env pod s)
  unfolding recreate_agent
  recreate_agent-Moves pod s =
      delete_outdated-Moves pod (env.api.delete_pod pod) (call (deleted_pod pod) s).1
        (Moves-last s.calls (deleted_pod pod) (deleted_moves pod))

  delete_failed-Moves :
      (reply : Deletion) (s : Run) → pod_writes s.calls ≢ [] → Moves (delete_failed env reply s)
  unfolding delete_failed
  delete_failed-Moves (not_deleted e) s h = h
  delete_failed-Moves deleted s h = h
  delete_failed-Moves already_gone s h = h

  apply_terminal-Moves :
      (pod : Pod) (v : Verdict) (s : Run) → v.delete_pod ≡ true → Moves (apply_terminal env pod v s)
  unfolding apply_terminal set_not_ready
  apply_terminal-Moves pod v s h =
      let told = (set_not_ready env failed v.reason v.message s).1 in
      let before = (call (recorded (warning_event v.reason "StartTunnel" v.message)) told).1 in
      Moves-if v.delete_pod _ _ before
        (λ _.
          delete_failed-Moves (env.api.delete_pod pod) (call (deleted_pod pod) before).1
            (Moves-last before.calls (deleted_pod pod) (deleted_moves pod)))
        (λ kept. cc)

  pub apply_verdict-Moves :
      (pod : Pod) (v : Verdict) (code : ℤ) (s : Run)
      → v.terminal ≡ true
      → v.delete_pod ≡ true
      → Moves (apply_verdict env pod v code s)
  unfolding apply_verdict
  apply_verdict-Moves pod v code s t d = Moves-if_then v.token_invalid _ _ _ _ (decide _) (decide _)
    where
      decide :
          (s' : Run)
          → Moves ((if v.terminal then apply_terminal env pod v else apply_retryable env v) s')
      decide s' =
          Moves-if v.terminal _ _ s' (λ _. apply_terminal-Moves pod v s' d) (λ retryable. cc)
