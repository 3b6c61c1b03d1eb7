-- ===== src/Controller/Settle/Converging.antt =====
-- internal/controller/jprqtunnel_controller.go, `reconcile`: the pod writes where the pod converges to
-- the wanted one, and of the whole second half.
use jprq_bek.Base.{◌≡◌, refl, true, false, [], ◌∷◌, Option, none, some, String, ok, arith}
use jprq_bek.Api.{JprqTunnel}
use jprq_bek.Kube.{Pod, Deletion, deleted, already_gone, not_deleted}
use jprq_bek.Controller.Pods.{desired_pod}
use jprq_bek.Controller.Run.{Env, Run, created, deleted_pod}
use jprq_bek.Controller.Ends.{Ends-if, Ends-if_then, Ends-lift}
use jprq_bek.Controller.Calls.{create, delete, Wrote, Wrote-event, Wrote-first}
use jprq_bek.Controller.Actions.{set_not_ready, agent_config}
use jprq_bek.Controller.Settle.{
  Facts, both_passed, is_terminating, is_current, create_answer, create_agent, delete_outdated,
  recreate_agent, match_pod, converge, act, settle,
}
use jprq_bek.Controller.Settle.Writes.{
  Written, WellWritten, nothing, judge_writes, wrote_new, deleted_outdated,
}

module _ (env : Env) (tunnel : JprqTunnel) (f : Facts) (assigned : String) (s₀ : Run) where
  create_answer_writes :
      (desired : Pod) (answer : Option String) (s : Run)
      → Written env tunnel f assigned s₀ s
      → WellWritten env tunnel f assigned s₀ (create_answer env desired answer s)
  unfolding create_answer set_not_ready
  create_answer_writes desired (some e) s w = record { holds = w }
  create_answer_writes desired none s w = record {
    holds = record { writes = w.writes; made = Wrote-event _ w.made; why = w.why };
  }

  delete_outdated_writes :
      (pod : Pod) (answer : Deletion) (s : Run)
      → Written env tunnel f assigned s₀ s
      → WellWritten env tunnel f assigned s₀ (delete_outdated env pod answer s)
  unfolding delete_outdated set_not_ready
  delete_outdated_writes pod (not_deleted e) s w = record { holds = w }
  delete_outdated_writes pod deleted s w = record {
    holds = record { writes = w.writes; made = Wrote-event _ w.made; why = w.why };
  }
  delete_outdated_writes pod already_gone s w = record {
    holds = record { writes = w.writes; made = Wrote-event _ w.made; why = w.why };
  }

  match_pod_writes :
      (existing : Option Pod) (desired : Pod) (s : Run)
      → f.existing ≡ existing
      → is_terminating f.existing ≡ false
      → both_passed f ≡ true
      → desired_pod env.ext tunnel (agent_config env tunnel assigned f.backend f.token) ≡ ok desired
      → Wrote [] s₀.calls s.calls
      → WellWritten env tunnel f assigned s₀ (match_pod env tunnel f existing desired s)
  unfolding match_pod recreate_agent create_agent
  match_pod_writes none desired s e kept both built h = create_answer_writes desired _ _ (record {
    writes = create desired ∷ [];
    made = Wrote-first (created desired) refl h;
    why = wrote_new e both built;
  })
  match_pod_writes (some pod) desired s e kept both built h =
      Ends-if (is_current env pod desired) _ _ s
        (λ same. judge_writes env tunnel f assigned s₀ (some pod) s e kept (λ _ n. cc e) h)
        (λ outdated. delete_outdated_writes pod _ _ (record {
          writes = delete pod ∷ [];
          made = Wrote-first (deleted_pod pod) refl h;
          why = deleted_outdated e kept both built outdated;
        }))

  converge_writes :
      (s : Run)
      → s.status.assigned_subdomain ≡ assigned
      → is_terminating f.existing ≡ false
      → Wrote [] s₀.calls s.calls
      → WellWritten env tunnel f assigned s₀ (converge env tunnel f s)
  unfolding converge
  converge_writes s a kept h =
      Ends-if (both_passed f) _ _ s
        (λ both.
          Ends-lift
            (desired_pod env.ext tunnel
              (agent_config env tunnel s.status.assigned_subdomain f.backend f.token))
            _ s
            (λ desired built.
              match_pod_writes f.existing desired s refl kept both (rw (← a) built) h)
            (nothing env tunnel f assigned s₀ h))
        (λ shut.
          judge_writes env tunnel f assigned s₀ f.existing s refl kept
            (λ both. absurd (ground arith)) h)

  act_writes :
      (s : Run)
      → s.status.assigned_subdomain ≡ assigned
      → Wrote [] s₀.calls s.calls
      → WellWritten env tunnel f assigned s₀ (act env tunnel f s)
  unfolding act set_not_ready
  act_writes s a h =
      Ends-if (is_terminating f.existing) _ _ s
        (λ going. record { holds = nothing env tunnel f assigned s₀ h })
        (λ kept. converge_writes s a kept h)

  -- Whether it ends with a value or an error, `reconcile` writes at most one pod after it has read the
  -- world, and only as `Justified` says.
  pub settle_writes :
      (s : Run)
      → s.status.assigned_subdomain ≡ assigned
      → Wrote [] s₀.calls s.calls
      → WellWritten env tunnel f assigned s₀ (settle env tunnel f s)
  unfolding settle
  settle_writes s a h =
      Ends-if_then f.backend_gate.passed _ _ _ s (λ ready. act_writes _ a h)
        (λ shut. act_writes _ a h)
