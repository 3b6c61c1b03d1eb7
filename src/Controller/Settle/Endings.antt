-- ===== src/Controller/Settle/Endings.antt =====
-- internal/controller/jprqtunnel_controller.go, `reconcile`: the phase where the pod converges to the
-- wanted one, and at the end of the whole second half.
use jprq_bek.Base.{◌≡◌, refl, false, Option, none, some, inl, inr, arith, String, ok}
use jprq_bek.Api.{JprqTunnel}
use jprq_bek.Kube.{Pod, Deletion, deleted, already_gone, not_deleted}
use jprq_bek.Controller.Pods.{desired_pod}
use jprq_bek.Controller.Run.{Env, Run}
use jprq_bek.Controller.Ends.{Ends-if, Ends-if_then, Ends-lift}
use jprq_bek.Controller.Actions.{set_not_ready, agent_config}
use jprq_bek.Controller.Settle.{
  Facts, both_passed, is_terminating, is_current, create_answer, create_agent, delete_outdated,
  recreate_agent, match_pod, converge, act, settle,
}
use jprq_bek.Controller.Settle.Phases.{WellEnded, judge_ends, ends_waiting}

module _ (env : Env) (tunnel : JprqTunnel) (f : Facts) (assigned : String) where
  create_answer_ends :
      (desired : Pod) (answer : Option String) (s : Run)
      → WellEnded env tunnel f assigned (create_answer env desired answer s)
  unfolding create_answer set_not_ready
  create_answer_ends desired none s = record { holds = ends_waiting (inl refl) refl }
  create_answer_ends desired (some e) s = record { holds = tt }

  delete_outdated_ends :
      (pod : Pod) (answer : Deletion) (s : Run)
      → WellEnded env tunnel f assigned (delete_outdated env pod answer s)
  unfolding delete_outdated set_not_ready
  delete_outdated_ends pod deleted s = record { holds = ends_waiting (inl refl) refl }
  delete_outdated_ends pod already_gone s = record { holds = ends_waiting (inl refl) refl }
  delete_outdated_ends pod (not_deleted e) s = record { holds = tt }

  match_pod_ends :
      (existing : Option Pod) (desired : Pod) (s : Run)
      → f.existing ≡ existing
      → is_terminating f.existing ≡ false
      → desired_pod env.ext tunnel (agent_config env tunnel assigned f.backend f.token) ≡ ok desired
      → WellEnded env tunnel f assigned (match_pod env tunnel f existing desired s)
  unfolding match_pod recreate_agent create_agent
  match_pod_ends none desired s e kept built = create_answer_ends desired _ _
  match_pod_ends (some pod) desired s e kept built =
      Ends-if (is_current env pod desired) _ _ s
        (λ same.
          judge_ends env tunnel f assigned (some pod) s e
            (λ _. (pod, e, kept, record { desired = desired; built = built; same = same })))
        (λ outdated. delete_outdated_ends pod _ _)

  converge_ends :
      (s : Run)
      → s.status.assigned_subdomain ≡ assigned
      → is_terminating f.existing ≡ false
      → WellEnded env tunnel f assigned (converge env tunnel f s)
  unfolding converge
  converge_ends s a kept =
      Ends-if (both_passed f) _ _ s
        (λ both.
          Ends-lift
            (desired_pod env.ext tunnel
              (agent_config env tunnel s.status.assigned_subdomain f.backend f.token))
            _ s (λ desired built. match_pod_ends f.existing desired s refl kept (rw (← a) built))
            tt)
        (λ shut. judge_ends env tunnel f assigned f.existing s refl (λ both. absurd (ground arith)))

  act_ends :
      (s : Run)
      → s.status.assigned_subdomain ≡ assigned
      → WellEnded env tunnel f assigned (act env tunnel f s)
  unfolding act set_not_ready
  act_ends s a =
      Ends-if (is_terminating f.existing) _ _ s
        (λ going. record { holds = ends_waiting (inr refl) refl }) (λ kept. converge_ends s a kept)

  -- However `reconcile` ends after it has read the world, if it ends without an error: it does not panic;
  -- the phase is active, failed, pending or degraded, with the requeue that belongs to it; and an active
  -- or failed phase has its reason.
  pub settle_ends :
      (s : Run)
      → s.status.assigned_subdomain ≡ assigned
      → WellEnded env tunnel f assigned (settle env tunnel f s)
  unfolding settle
  settle_ends s a =
      Ends-if_then f.backend_gate.passed _ _ _ s (λ ready. act_ends _ a) (λ shut. act_ends _ a)
