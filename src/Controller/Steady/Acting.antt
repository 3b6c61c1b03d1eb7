-- ===== src/Controller/Steady/Acting.antt =====
-- internal/controller/jprqtunnel_controller.go, the acting half of `reconcile`.
use jprq_bek.Base.{
  ℕ, refl, ap, [], ◌∷◌, String, Option, none, some, Result, ok, err, if◌then◌else◌, arith,
}
use jprq_bek.Api.{JprqTunnel, degraded, ready, cond_false}
use jprq_bek.Kube.{Pod}
use jprq_bek.Controller.Classify.{classify_pod}
use jprq_bek.Controller.Pods.{desired_pod}
use jprq_bek.Controller.Conditions.{SetCondition, condition}
use jprq_bek.Controller.Run.{Env, Requeue, done, error, lift, pure, ◌>>=◌, update_status}
use jprq_bek.Controller.Actions.{set_not_ready, agent_config}
use jprq_bek.Controller.Settle.{
  Facts, both_passed, is_terminating, is_current, judge, match_pod, converge, act, settle,
}
use jprq_bek.Controller.Steady.Writes.{to_condition, to_backend_address, to_phase}
use jprq_bek.Controller.Steady.Uniform.{
  leaf, Uniform-if, Course-if, Course-cong, at_time, Timed, Uniform, Course, steady, moved,
}
use jprq_bek.Controller.Steady.Sequence.{Course-bind}
use jprq_bek.Controller.Steady.Moving.{create_agent-Moves, recreate_agent-Moves}
use jprq_bek.Controller.Steady.Weighing.{check_gates-Uniform, weigh-Turns}

module _ (env : Env) (tunnel : JprqTunnel) (assigned : String) (answer : Result String) where
  abbrev Steps : {A : Type 0} → ℕ → ℕ → Timed A → Type 0
  Steps low high m = Uniform assigned env.api.get_config answer low high m

  abbrev Turns : ℕ → ℕ → Timed Requeue → Type 0
  Turns low high m = Course assigned env.api.get_config answer low high m

  judge-Turns :
      (f : Facts) (existing : Option Pod)
      → Turns 6 11 (λ set. judge (at_time env set) tunnel f existing)
  unfolding judge
  judge-Turns f none = steady (check_gates-Uniform env tunnel assigned answer f)
  judge-Turns f (some pod) =
      weigh-Turns env tunnel assigned answer pod f
        (classify_pod pod tunnel.spec.subdomain_collision_behavior) refl

  match_pod-Turns :
      (f : Facts) (existing : Option Pod) (desired : Pod)
      → Turns 6 11 (λ set. match_pod (at_time env set) tunnel f existing desired)
  unfolding match_pod
  match_pod-Turns f none desired = moved λ set s k. create_agent-Moves (at_time env set) desired s
  match_pod-Turns f (some pod) desired =
      Course-if assigned env.api.get_config answer 6 11 _ _ (is_current env pod desired)
        (λ current. judge-Turns f (some pod))
        (λ outdated. moved λ set s k. recreate_agent-Moves (at_time env set) pod s)

  lifted-Turns :
      (f : Facts) (desired : Result Pod)
      → Turns 6 11 (λ set. lift desired >>= match_pod (at_time env set) tunnel f f.existing)
  lifted-Turns f (ok desired) = match_pod-Turns f f.existing desired
  lifted-Turns f (err e) =
      steady (leaf assigned env.api.get_config answer (error e) [] (omega arith) (λ _ _. refl))

  -- The pod that is wanted, whenever it is asked for.
  abbrev wanted : Facts → SetCondition → String → Result Pod
  wanted f set subdomain =
      desired_pod (at_time env set).ext tunnel
        (agent_config (at_time env set) tunnel subdomain f.backend f.token)

  converge-Turns : (f : Facts) → Turns 6 11 (λ set. converge (at_time env set) tunnel f)
  unfolding converge agent_config desired_pod
  converge-Turns f =
      let now = env.ext.set_status_condition in
      Course-if assigned env.api.get_config answer 6 11 _ _ (both_passed f)
        (λ both.
          Course-cong assigned env.api.get_config answer 6 11 _
            (λ set.
              lift (wanted f now assigned) >>= match_pod (at_time env set) tunnel f f.existing)
            (λ set s k.
              ap
                (λ x. (lift (wanted f set x) >>= match_pod (at_time env set) tunnel f f.existing) s)
                k.0)
            (lifted-Turns f (wanted f now assigned)))
        (λ blocked. judge-Turns f f.existing)

  act-Turns : (f : Facts) → Turns 6 11 (λ set. act (at_time env set) tunnel f)
  unfolding act set_not_ready
  act-Turns f =
      Course-if assigned env.api.get_config answer 6 11 _ _ (is_terminating f.existing)
        (λ going. steady (
          leaf assigned env.api.get_config answer (done _)
            (to_phase degraded ∷ to_condition (condition ready cond_false _ _) ∷ []) (omega arith)
            (λ _ _. refl)))
        (λ there. converge-Turns f)

  pub settle-Turns : (f : Facts) → Turns 5 11 (λ set. settle (at_time env set) tunnel f)
  unfolding settle
  settle-Turns f =
      Course-bind assigned env.api.get_config answer 5 6 11
        (λ set.
          if f.backend_gate.passed
          then update_status (λ st. record st { backend_address = f.backend.address })
          else pure tt)
        (λ set _. act (at_time env set) tunnel f) (omega arith)
        (Uniform-if assigned env.api.get_config answer 5 6 _ _ f.backend_gate.passed
          (leaf assigned env.api.get_config answer (done tt)
            (to_backend_address f.backend.address ∷ []) (omega arith) (λ _ _. refl))
          (leaf assigned env.api.get_config answer (done tt) [] (omega arith) (λ _ _. refl)))
        (λ _. act-Turns f)
