-- ===== src/Controller/Steady/Idle.antt =====
-- internal/controller/jprqtunnel_controller.go, `Reconcile` and `patchStatus`: a status that is already stored.
use mathlib.Core.List.{append-nil}
use jprq_bek.Base.{
  ◌≡◌, refl, sym, ap, ◌∙◌, String, Bool, Bool-cases, inl, inr, true, false, List, [], ◌∷◌, none,
  is_some, if◌then◌else◌, arith, ℤ,
}
use jprq_bek.Api.{JprqTunnel, JprqTunnelStatus, failed}
use jprq_bek.Kube.{found}
use jprq_bek.JprqConfig.{Resolver}
use jprq_bek.Controller.Conditions.{SetCondition, KeepsConditions}
use jprq_bek.Controller.Run.{Env, Run, Requeue, Outcome, done, error, panic, got_tunnel, patched}
use jprq_bek.Controller.Calls.{pod_writes, pod_writes-append}
use jprq_bek.Controller.Actions.{no_requeue}
use jprq_bek.Controller.Reconcile.{
  Handled, reconcile, handle, finish, patch_status, observed, is_settled_failure, start,
}
use jprq_bek.Controller.Reconcile.Requests.{written}
use jprq_bek.Controller.Steady.Writes.{
  Ordered, Write, apply, apply_all, apply_all_twice, to_condition, to_pod_name, to_restart_count,
  to_backend_address, to_last_exit_code, to_last_failure_message, to_phase, to_url,
}

-- Neither writes to the generation that was observed, nor reads it.
apply-generation :
    (set : SetCondition) (w : Write) (st : JprqTunnelStatus) (g : ℤ)
    → apply set w (record st { observed_generation = g })
      ≡ record (apply set w st) { observed_generation = g }
apply-generation set (to_pod_name x) st g = refl
apply-generation set (to_restart_count x) st g = refl
apply-generation set (to_condition x) st g = refl
apply-generation set (to_backend_address x) st g = refl
apply-generation set (to_last_exit_code x) st g = refl
apply-generation set (to_last_failure_message x) st g = refl
apply-generation set (to_phase x) st g = refl
apply-generation set (to_url x) st g = refl

apply_all-generation :
    (set : SetCondition) (ws : List Write) (st : JprqTunnelStatus) (g : ℤ)
    → apply_all set ws (record st { observed_generation = g })
      ≡ record (apply_all set ws st) { observed_generation = g }
apply_all-generation set [] st g = refl
apply_all-generation set (w ∷ ws) st g =
    ap (apply_all set ws) (apply-generation set w st g)
    ∙ apply_all-generation set ws (apply set w st) g

module _ (env : Env) (tunnel : JprqTunnel) where
  patch_status-pod_writes :
      (o : Outcome Requeue) (s : Run)
      → pod_writes (patch_status env tunnel o s).2 ≡ pod_writes s.calls
  unfolding patch_status
  patch_status-pod_writes o s =
      let after = written env tunnel s in
      elim (Bool-cases (env.ext.deep_equal tunnel.status after.status)) [
        | inl same ↦ rw same
        | inr differs ↦
            rw differs
              (pod_writes-append s.calls (patched after ∷ []) ∙ append-nil (pod_writes s.calls))
      ]

  pub finish-pod_writes :
      (r : Outcome Requeue × Run) → pod_writes (finish env tunnel r).2 ≡ pod_writes r.1.calls
  unfolding finish
  finish-pod_writes (panic, s) = refl
  finish-pod_writes (done rq, s) = patch_status-pod_writes (done rq) s
  finish-pod_writes (error e, s) = patch_status-pod_writes (error e) s

  -- Where there is nothing to write, the request ends as the reconciliation did.
  pub finish-idle :
      (r : Outcome Requeue × Run)
      → env.ext.deep_equal tunnel.status (observed env tunnel r.1.status) ≡ true
      → finish env tunnel r ≡ (r.0, r.1.resolver, r.1.calls)
  unfolding finish patch_status
  finish-idle (panic, s) same = refl
  finish-idle (done rq, s) same = rw same
  finish-idle (error e, s) same = rw same

pub settled-failed :
    (env : Env) (t : JprqTunnel) → is_settled_failure env t ≡ true → t.status.phase ≡ failed
settled-failed env t h = ground (arith, h)

passed_guards :
    {A : Type 0} (b c : Bool) (x y z : A) (P : A → Type 0)
    → b ≡ false
    → (c ≡ true → P y)
    → (c ≡ false → P z)
    → P (if b then x else if c then y else z)
passed_guards true c x y z P e h k = cc
passed_guards false true x y z P e h k = h refl
passed_guards false false x y z P e h k = k refl

pub handle-cases :
    (env : Env) (t : JprqTunnel) (name : String) (resolver : Resolver) (P : Handled env → Type 0)
    → t.deletion_timestamp ≡ none
    → (is_settled_failure env t ≡ true → P (done no_requeue, resolver, got_tunnel name ∷ []))
    → (is_settled_failure env t ≡ false
        → P (finish env t (reconcile env t (start env name resolver t))))
    → P (handle env name resolver (found t))
unfolding handle
handle-cases env t name resolver P live h k =
    passed_guards (is_some t.deletion_timestamp) (is_settled_failure env t) _ _ _ P
      (ap is_some live) h k

-- The writes of a run, made again to the status that the run left, as it is stored.
pub stored_again :
    (set again : SetCondition) (ws : List Write) (before after : JprqTunnelStatus)
    (assigned : String) (g : ℤ)
    → KeepsConditions set
    → KeepsConditions again
    → Ordered 1 11 ws
    → after ≡ apply_all set ws before
    → after.assigned_subdomain ≡ assigned
    → record (apply_all again ws
        (record after { observed_generation = g; assigned_subdomain = assigned })) {
          observed_generation = g;
        }
      ≡ record after { observed_generation = g }
stored_again set again ws before after assigned g k l o wrote kept =
    ap {A = JprqTunnelStatus} (λ st. record (apply_all again ws st) { observed_generation = g })
      (λ i. record after { observed_generation = g; assigned_subdomain = sym kept i })
    ∙ ap {A = JprqTunnelStatus} (λ st. record st { observed_generation = g })
        (apply_all-generation again ws after g)
    ∙ ap {A = JprqTunnelStatus} (λ st. record st { observed_generation = g })
        (ap (apply_all again ws) wrote ∙ apply_all_twice set again 1 11 ws before k l o ∙ sym wrote)
