-- ===== src/Controller/Reconcile/Refusals.antt =====
-- internal/controller/jprqtunnel_controller.go, `applyVerdict` and `Reconcile`: a terminal verdict whose
-- pod cannot be deleted.
use mathlib.Core.Path.{subst}
use jprq_bek.Base.{
  ◌≡◌, refl, sym, ap, ◌∙◌, String, ◌<>◌, Bool, Bool-cases, inl, inr, true, false, ℤ, =ℤ=-iff, [],
  ◌∷◌, ◌++◌, none, some, is_some, if◌then◌else◌, arith,
}
use jprq_bek.Api.{JprqTunnel, JprqTunnelStatus, CollisionBehavior, failed, token_ready, cond_false}
use jprq_bek.Kube.{Pod, Deletion, deleted, already_gone, found, not_deleted}
use jprq_bek.JprqConfig.{Resolver}
use jprq_bek.Controller.Classify.{Verdict, classify_pod}
use jprq_bek.Controller.Classify.Exits.{classify_exit_flags}
use jprq_bek.Controller.Classify.Guard.{classify_pod_iff}
use jprq_bek.Controller.Pods.{pod_name}
use jprq_bek.Controller.Run.{
  Env, Run, Requeue, M, Outcome, done, error, panic, got_tunnel, patched, continue_with,
  set_condition, ◌>>=◌,
}
use jprq_bek.Controller.Actions.{
  no_requeue, set_not_ready, delete_failed, apply_terminal, apply_verdict,
}
use jprq_bek.Controller.Settle.{is_current, settle, act, converge, match_pod, judge, weigh_verdict}
use jprq_bek.Controller.Reconcile.{reconcile, reconcile_request, start, is_settled_failure}
use jprq_bek.Controller.Reconcile.Known.{Yields, known, gather-known}
use jprq_bek.Controller.Reconcile.Converges.{Wanted}
use jprq_bek.Controller.Reconcile.Requests.{settled_failure_untouched, failure_reported, written}

-- The step fails because the pod could not be deleted, and has called the tunnel failed.
pub record FailsFailed (e : String) (o : Outcome Requeue × Run) : Type 0 where
  pub ended : o.0 ≡ error ("deleting failed agent pod: " <> e)
  pub phase : o.1.status.phase ≡ failed

if_then :
    {A B : Type 0} (P : Outcome B × Run → Type 0) (b : Bool) (m n : M A) (k : A → M B) (s : Run)
    → P ((m >>= k) s)
    → P ((n >>= k) s)
    → P (((if b then m else n) >>= k) s)
if_then P true m n k s h j = h
if_then P false m n k s h j = j

known_then :
    {A B : Type 0} (P : Outcome B × Run → Type 0) (a : A) (assigned : String) (o : Outcome A × Run)
    (k : A → M B)
    → Yields a assigned o
    → ((s : Run) → s.status.assigned_subdomain ≡ assigned → P (k a s))
    → P (continue_with o k)
known_then P a assigned (done b, s) k y h = subst (λ x. P (k x s)) (sym y.holds.0) (h s y.holds.1)
known_then P a assigned (error e, s) k y h = absurd y.holds
known_then P a assigned (panic, s) k y h = absurd y.holds

pub terminal-delete_pod :
    (pod : Pod) (b : CollisionBehavior) (v : Verdict) (code : ℤ)
    → classify_pod pod b ≡ some (v, code)
    → v.terminal ≡ true
    → v.delete_pod ≡ true
terminal-delete_pod pod b v code h terminal =
    let j = (classify_pod_iff pod b v code).0 h in
    let (_, same, _) = classify_exit_flags code b in
    ap (λ w. w.delete_pod) j.verdict ∙ same ∙ ap (λ w. w.terminal) (sym j.verdict) ∙ terminal

module _ (env : Env) (pod : Pod) (v : Verdict) (e : String) (terminal : v.terminal ≡ true)
    (deletes : v.delete_pod ≡ true) (refusal : env.api.delete_pod pod ≡ not_deleted e) where
  delete_failed_refused :
      (d : Deletion) (s : Run)
      → d ≡ not_deleted e
      → s.status.phase ≡ failed
      → FailsFailed e (delete_failed env d s)
  unfolding delete_failed
  delete_failed_refused (not_deleted x) s h p = record {
    ended = ap error (ap (λ y. "deleting failed agent pod: " <> y) (same_error x e h));
    phase = p;
  }
    where
      same_error : (x e : String) → not_deleted x ≡ not_deleted e → x ≡ e
      same_error x e h = cc
  delete_failed_refused deleted s h p = cc
  delete_failed_refused already_gone s h p = cc

  if_terminal :
      (b : Bool) (m n : M Requeue) (s : Run)
      → b ≡ true
      → FailsFailed e (m s)
      → FailsFailed e ((if b then m else n) s)
  if_terminal true m n s h f = f
  if_terminal false m n s h f = cc

  apply_terminal_refused : (s : Run) → FailsFailed e (apply_terminal env pod v s)
  unfolding apply_terminal set_not_ready
  apply_terminal_refused s =
      if_terminal v.delete_pod _ _ _ deletes
        (delete_failed_refused (env.api.delete_pod pod) _ refusal refl)

  apply_verdict_refused : (code : ℤ) (s : Run) → FailsFailed e (apply_verdict env pod v code s)
  unfolding apply_verdict
  apply_verdict_refused code s =
      let noted = record s {
        status = record s.status { last_exit_code = some code; last_failure_message = v.message };
      } in
      if_then (FailsFailed e) v.token_invalid _ _ _ _
        (if_terminal v.terminal _ _ _ terminal (
          apply_terminal_refused
            (set_condition env.ext token_ready cond_false v.reason v.message noted).1))
        (if_terminal v.terminal _ _ _ terminal (apply_terminal_refused noted))

  module _ (tunnel : JprqTunnel) (w : Wanted env tunnel) (code : ℤ)
      (read : env.api.get_pod env.operator_namespace (pod_name tunnel.name) ≡ found pod)
      (kept : pod.deletion_timestamp ≡ none) (current : is_current env pod w.desired ≡ true)
      (judged : classify_pod pod tunnel.spec.subdomain_collision_behavior ≡ some (v, code)) where
    settle_refused :
        (s : Run)
        → s.status.assigned_subdomain ≡ tunnel.spec.subdomain
        → FailsFailed e (settle env tunnel (known env tunnel (some pod) w.token w.backend) s)
    unfolding settle act converge match_pod judge weigh_verdict
    settle_refused s a =
        rw (ap is_some kept, a, w.built, current, judged)
          (apply_verdict_refused code (record s {
            status = record s.status {
              assigned_subdomain = tunnel.spec.subdomain;
              backend_address = w.backend.address;
            };
          }))

    reconcile_refused : (s : Run) → FailsFailed e (reconcile env tunnel s)
    unfolding reconcile
    reconcile_refused s =
        known_then (FailsFailed e) (known env tunnel (some pod) w.token w.backend)
          tunnel.spec.subdomain _ _
          (gather-known env tunnel (some pod) w.token w.backend s read w.has_token w.has_backend)
          settle_refused

newly_failed :
    (env : Env) (tunnel : JprqTunnel)
    → is_settled_failure env tunnel ≡ false
    → tunnel.status.phase ≡ failed
    → tunnel.status.observed_generation ≡ tunnel.generation
    → ⊥
newly_failed env tunnel h p g =
    ground (arith, =ℤ=-iff tunnel.status.observed_generation tunnel.generation)

-- The deletion of a rejected pod is not retried. Say a tunnel is not being deleted and has not failed at
-- its present generation, both preconditions hold, its pod is current and not being deleted and has got
-- a terminal verdict, the API server refuses to delete it, and deep equality tells phases and
-- generations apart. The request for the tunnel ends in the error of the deletion, and writes a status
-- whose phase is failed; and once that status is what the API server holds, every later request for
-- the tunnel makes one read and nothing else, so the pod stays.
pub refused_deletion_abandons_pod :
    (env : Env) (tunnel : JprqTunnel) (name : String) (resolver : Resolver) (w : Wanted env tunnel)
    (pod : Pod) (v : Verdict) (code : ℤ) (e : String) (later : Env) (resolver' : Resolver)
    → env.api.get_tunnel name ≡ found tunnel
    → tunnel.deletion_timestamp ≡ none
    → is_settled_failure env tunnel ≡ false
    → env.api.get_pod env.operator_namespace (pod_name tunnel.name) ≡ found pod
    → pod.deletion_timestamp ≡ none
    → is_current env pod w.desired ≡ true
    → classify_pod pod tunnel.spec.subdomain_collision_behavior ≡ some (v, code)
    → v.terminal ≡ true
    → env.api.delete_pod pod ≡ not_deleted e
    → ((st st' : JprqTunnelStatus)
        → env.ext.deep_equal st st' ≡ true
        → (st.phase ≡ st'.phase) × (st.observed_generation ≡ st'.observed_generation))
    → later.api.get_tunnel name
      ≡ found (written env tunnel (reconcile env tunnel (start env name resolver tunnel)).1)
    → let s = (reconcile env tunnel (start env name resolver tunnel)).1 in
      (reconcile_request env name resolver ≡ (
        error ("deleting failed agent pod: " <> e),
        s.resolver,
        s.calls ++ patched (written env tunnel s) ∷ [],
      ))
      × (s.status.phase ≡ failed)
      × (reconcile_request later name resolver'
          ≡ (done no_requeue, resolver', got_tunnel name ∷ []))
refused_deletion_abandons_pod env tunnel name resolver w pod v code e later resolver' get live
      unsettled read kept current judged terminal refusal tells held =
    let r = reconcile env tunnel (start env name resolver tunnel) in
    let fails =
      reconcile_refused env pod v e terminal (terminal-delete_pod pod _ v code judged terminal)
        refusal tunnel w code read kept current judged (start env name resolver tunnel) in
    (
      failure_reported env tunnel name resolver get live unsettled
          ("deleting failed agent pod: " <> e) r.1 (ap (λ o. (o, r.1)) fails.ended)
          (elim (Bool-cases (env.ext.deep_equal tunnel.status (written env tunnel r.1).status)) [
            | inl same ↦
                let (phase, generation) =
                  tells tunnel.status (written env tunnel r.1).status same in
                absurd (newly_failed env tunnel unsettled (phase ∙ fails.phase) generation)
            | inr differs ↦ differs
          ]),
      fails.phase,
      settled_failure_untouched later name resolver' (written env tunnel r.1) held fails.phase refl,
    )
