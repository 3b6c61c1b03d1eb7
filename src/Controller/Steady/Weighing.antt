-- ===== src/Controller/Steady/Weighing.antt =====
-- internal/controller/jprqtunnel_controller.go, `applyVerdict` and the end of `reconcile`.
use mathlib.Core.List.{map}
use jprq_bek.Base.{
  ℕ, ◌≡◌, refl, sym, ap, ◌∙◌, pos, negsuc, Bool-cases, inl, inr, false, not, ◌||◌, [], ◌∷◌, String,
  Option, none, some, is_some, Result, ok, err, ℤ, if◌then◌else◌, arith,
}
use jprq_bek.Api.{
  token_ready, JprqTunnel, CollisionBehavior, active, pending, degraded, ready, cond_true,
  cond_false, pod_not_ready, tunnel_active, is_subdomain_busy,
}
use jprq_bek.Kube.{Pod, ContainerStatus}
use jprq_bek.JprqConfig.{domain, url_for}
use jprq_bek.JprqConfig.Caching.{domain_again}
use jprq_bek.Controller.Classify.{Verdict, agent_status, is_online, classify_pod, classify_exit}
use jprq_bek.Controller.Classify.Guard.{classify_pod_iff}
use jprq_bek.Controller.Conditions.{condition}
use jprq_bek.Controller.Run.{
  Env, Requeue, done, panic, pure, call, recorded, fetched, ◌>>=◌, ◌>>◌, update_status,
  set_condition,
}
use jprq_bek.Controller.Actions.{
  warning_event, requeue_waiting, requeue_active, set_not_ready, apply_retryable, apply_terminal,
  apply_verdict, look_up_domain, url_after, go_active,
}
use jprq_bek.Controller.Settle.{
  Facts, check_status, check_ready, check_gates, stay_blocked, weigh_verdict,
}
use jprq_bek.Controller.Reconcile.Refusals.{terminal-delete_pod}
use jprq_bek.Controller.Steady.Writes.{
  to_condition, to_last_exit_code, to_last_failure_message, to_phase, to_url, apply_all,
}
use jprq_bek.Controller.Steady.Log.{cluster_writes-more, cluster_writes-fetched}
use jprq_bek.Controller.Steady.Uniform.{
  leaf, asked, Uniform-if, Uniform-else, at_time, Timed, Uniform, Course, steady, moved,
}
use jprq_bek.Controller.Steady.Sequence.{Uniform-bind}
use jprq_bek.Controller.Steady.Moving.{apply_verdict-Moves}

valid_token :
    (code : ℤ) (b : CollisionBehavior)
    → (classify_exit code b).terminal ≡ false
    → (classify_exit code b).token_invalid ≡ false
unfolding classify_exit
valid_token (pos n) b h = ground (arith, h)
valid_token (negsuc n) b h = ground (arith, h)

-- A verdict that can be retried says nothing of the token.
retryable-token_valid :
    (pod : Pod) (b : CollisionBehavior) (v : Verdict) (code : ℤ)
    → classify_pod pod b ≡ some (v, code)
    → v.terminal ≡ false
    → v.token_invalid ≡ false
retryable-token_valid pod b v code h retryable =
    let j = (classify_pod_iff pod b v code).0 h in
    ap (λ w. w.token_invalid) j.verdict
    ∙ valid_token code b (ap (λ w. w.terminal) (sym j.verdict) ∙ retryable)

module _ (env : Env) (tunnel : JprqTunnel) (assigned : String) (answer : Result String) where
  abbrev Steps : {A : Type 0} → ℕ → ℕ → Timed A → Type 0
  Steps low high m = Uniform assigned env.api.get_config answer low high m

  abbrev Turns : ℕ → ℕ → Timed Requeue → Type 0
  Turns low high m = Course assigned env.api.get_config answer low high m

  look_up_domain-Uniform : Steps 9 9 (λ set. look_up_domain (at_time env set))
  unfolding look_up_domain
  look_up_domain-Uniform = record {
    outcome = done answer;
    writes = [];
    ordered = omega arith;
    runs = λ set s knows. record {
      ended = ap done knows.1;
      wrote = refl;
      knows = (knows.0, domain_again env.api.get_config s.resolver ∙ knows.1);
      quiet =
          let sent = (domain env.api.get_config s.resolver).2 in
          cluster_writes-more s.calls (map fetched sent) (cluster_writes-fetched sent);
    };
  }

  abbrev finish_active : Result String → Timed Requeue
  finish_active a set = do
    update_status λ st. record st { url = url_after env a st }
    set_condition (at_time env set).ext ready cond_true tunnel_active "tunnel is online"
    pure requeue_active

  finish_active-Uniform : (a : Result String) → Steps 9 11 (finish_active a)
  finish_active-Uniform (err e) =
      leaf assigned env.api.get_config answer (done _)
        (to_condition (condition ready cond_true _ _) ∷ []) (omega arith) (λ _ _. refl)
  finish_active-Uniform (ok d) =
      let told = to_condition (condition ready cond_true tunnel_active "tunnel is online") in
      record {
        outcome = done requeue_active;
        writes = to_url (url_for assigned d) ∷ told ∷ [];
        ordered = omega arith;
        runs = λ set s knows. record {
          ended = refl;
          wrote = ap (λ x. apply_all set (to_url (url_for x d) ∷ told ∷ []) s.status) knows.0;
          knows = knows;
          quiet = refl;
        };
      }

  go_active-Uniform : Steps 6 11 (λ set. go_active (at_time env set))
  unfolding go_active
  go_active-Uniform =
      Uniform-bind assigned env.api.get_config answer 6 9 11
        (λ set. update_status λ st. record st { phase = active; last_failure_message = "" })
        (λ set _. look_up_domain (at_time env set) >>= λ a. finish_active a set) (omega arith)
        (leaf assigned env.api.get_config answer (done tt)
          (to_last_failure_message "" ∷ to_phase active ∷ []) (omega arith) (λ _ _. refl))
        (λ _.
          Uniform-bind assigned env.api.get_config answer 9 9 11
            (λ set. look_up_domain (at_time env set)) (λ set a. finish_active a set) (omega arith)
            look_up_domain-Uniform finish_active-Uniform)

  not_ready-Uniform : Steps 6 11 (λ set. do
    set_not_ready (at_time env set) degraded pod_not_ready "agent pod is not ready"
    pure requeue_waiting)
  unfolding set_not_ready
  not_ready-Uniform =
      leaf assigned env.api.get_config answer (done _)
        (to_phase degraded ∷ to_condition (condition ready cond_false _ _) ∷ []) (omega arith)
        (λ _ _. refl)

  check_status-Uniform :
      (o : Option ContainerStatus) → Steps 6 11 (λ set. check_status (at_time env set) o)
  unfolding check_status
  check_status-Uniform none = not_ready-Uniform
  check_status-Uniform (some cs) =
      Uniform-if assigned env.api.get_config answer 6 11 _ _ (is_online cs) go_active-Uniform
        (not_ready-Uniform)

  check_ready-Uniform :
      (existing : Option Pod) → Steps 6 11 (λ set. check_ready (at_time env set) existing)
  unfolding check_ready
  check_ready-Uniform none =
      leaf assigned env.api.get_config answer panic [] (omega arith) (λ _ _. refl)
  check_ready-Uniform (some pod) = check_status-Uniform (agent_status pod)

  pub check_gates-Uniform : (f : Facts) → Steps 6 11 (λ set. check_gates (at_time env set) f)
  unfolding check_gates stay_blocked set_not_ready
  check_gates-Uniform f =
      Uniform-if assigned env.api.get_config answer 6 11 _ _
        (not f.token_gate.passed || not f.backend_gate.passed)
        (leaf assigned env.api.get_config answer (done _)
          (to_phase (if is_some f.existing then degraded else pending)
            ∷ to_condition (condition ready cond_false _ _)
            ∷ [])
          (omega arith) (λ _ _. refl))
        (check_ready-Uniform f.existing)

  retryable-Uniform : (v : Verdict) → Steps 8 11 (λ set. apply_retryable (at_time env set) v)
  unfolding apply_retryable set_not_ready
  retryable-Uniform v =
      Uniform-bind assigned env.api.get_config answer 8 8 11
        (λ set.
          if is_subdomain_busy v.reason
          then call (recorded (warning_event v.reason "ClaimSubdomain" v.message))
          else pure tt)
        (λ set _. do
          set_not_ready (at_time env set) degraded v.reason v.message
          pure requeue_waiting)
        (omega arith)
        (Uniform-if assigned env.api.get_config answer 8 8 _ _ (is_subdomain_busy v.reason)
          (asked assigned env.api.get_config answer _ (omega arith) refl)
          (leaf assigned env.api.get_config answer (done tt) [] (omega arith) (λ _ _. refl)))
        (λ _.
          leaf assigned env.api.get_config answer (done _)
            (to_phase degraded ∷ to_condition (condition ready cond_false _ _) ∷ []) (omega arith)
            (λ _ _. refl))

  module _ (pod : Pod) where
    verdict-Uniform :
        (v : Verdict) (code : ℤ)
        → v.terminal ≡ false
        → v.token_invalid ≡ false
        → Steps 6 11 (λ set. apply_verdict (at_time env set) pod v code)
    unfolding apply_verdict
    verdict-Uniform v code retryable valid =
        Uniform-bind assigned env.api.get_config answer 6 8 11
          (λ set.
            update_status
              λ st. record st { last_exit_code = some code; last_failure_message = v.message })
          (λ set _. do
            if v.token_invalid
                then set_condition (at_time env set).ext token_ready cond_false v.reason v.message
                else pure tt
            if v.terminal
                then apply_terminal (at_time env set) pod v
                else apply_retryable (at_time env set) v)
          (omega arith)
          (leaf assigned env.api.get_config answer (done tt)
            (to_last_exit_code code ∷ to_last_failure_message v.message ∷ []) (omega arith)
            (λ _ _. refl))
          (λ _.
            Uniform-bind assigned env.api.get_config answer 8 8 11
              (λ set.
                if v.token_invalid
                then set_condition (at_time env set).ext token_ready cond_false v.reason v.message
                else pure tt)
              (λ set _.
                if v.terminal
                then apply_terminal (at_time env set) pod v
                else apply_retryable (at_time env set) v)
              (omega arith)
              (Uniform-else assigned env.api.get_config answer 8 8 _ _ v.token_invalid valid
                (leaf assigned env.api.get_config answer (done tt) [] (omega arith) (λ _ _. refl)))
              (λ _.
                Uniform-else assigned env.api.get_config answer 8 11 _ _ v.terminal retryable
                  (retryable-Uniform v)))

    pub weigh-Turns :
        (f : Facts) (o : Option (Verdict × ℤ))
        → classify_pod pod tunnel.spec.subdomain_collision_behavior ≡ o
        → Turns 6 11 (λ set. weigh_verdict (at_time env set) f pod o)
    unfolding weigh_verdict
    weigh-Turns f none h = steady (check_gates-Uniform f)
    weigh-Turns f (some (v, code)) h =
        let b = tunnel.spec.subdomain_collision_behavior in
        elim (Bool-cases v.terminal) [
          | inl terminal ↦ moved λ set s k.
              apply_verdict-Moves (at_time env set) pod v code s terminal
                (terminal-delete_pod pod b v code h terminal)
          | inr retryable ↦
              steady
                (verdict-Uniform v code retryable (retryable-token_valid pod b v code h retryable))
        ]
