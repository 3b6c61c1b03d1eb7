-- ===== src/Controller/Steady/LostEdits.antt =====
-- internal/controller/jprqtunnel_controller.go, `Reconcile` and `patchStatus`: the edited spec of a failed
-- tunnel.
use jprq_bek.Base.{
  ℕ, suc, ◌≤◌, ◌≡◌, ◌≢◌, refl, sym, ap, ◌∙◌, String, Bool-cases, inl, inr, true, false, List, [],
  ◌∷◌, ◌++◌, none, arith, =ℤ=-iff,
}
use jprq_bek.Api.{JprqTunnel, JprqTunnelStatus, failed}
use jprq_bek.Kube.{found}
use jprq_bek.JprqConfig.{Resolver, domain}
use jprq_bek.Controller.Conditions.{SetCondition}
use jprq_bek.Controller.Run.{Env, Run, done, error, got_tunnel, patched, continue_with}
use jprq_bek.Controller.Actions.{no_requeue}
use jprq_bek.Controller.Settle.{settle}
use jprq_bek.Controller.Reconcile.{gather, reconcile, reconcile_request, is_settled_failure, start}
use jprq_bek.Controller.Reconcile.Report.{assigned_start}
use jprq_bek.Controller.Reconcile.Requests.{written, failure_reported, settled_failure_untouched}
use jprq_bek.Controller.Steady.Writes.{Write, apply, apply_all, slot, Ordered}
use jprq_bek.Controller.Steady.Reading.{read_all-Uniform, gather-read_all}

Ordered-bounds : (low high : ℕ) (ws : List Write) → Ordered low high ws → low ≤ high
Ordered-bounds low high [] o = o
Ordered-bounds low high (w ∷ ws) (o, os) =
    let above = Ordered-bounds (suc (slot w)) high ws os in omega (arith, o, above)

apply-phase :
    (set : SetCondition) (w : Write) (st : JprqTunnelStatus)
    → suc (slot w) ≤ 5
    → (apply set w st).phase ≡ st.phase
apply-phase set w st l = ground (arith, l)

-- The phase is written after the readings.
apply_all-phase :
    (set : SetCondition) (low : ℕ) (ws : List Write) (st : JprqTunnelStatus)
    → Ordered low 5 ws
    → (apply_all set ws st).phase ≡ st.phase
apply_all-phase set low [] st o = refl
apply_all-phase set low (w ∷ ws) st (o, os) =
    apply_all-phase set (suc (slot w)) ws (apply set w st) os
    ∙ apply-phase set w st (Ordered-bounds (suc (slot w)) 5 ws os)

module _ (env : Env) (tunnel : JprqTunnel) (s : Run) where
  gather-phase : (gather env tunnel s).1.status.phase ≡ s.status.phase
  gather-phase =
      let t = assigned_start env tunnel s in
      let assigned = tunnel.spec.subdomain in
      let get = env.api.get_config in
      let answer = (domain get t.resolver).0 in
      let set = env.ext.set_status_condition in
      let u = read_all-Uniform env tunnel assigned get answer in
      ap (λ r. r.1.status.phase) (gather-read_all env tunnel assigned get answer set s)
      ∙ ap (λ st. st.phase) (u.runs set t (refl, refl)).wrote
      ∙ apply_all-phase set 1 u.writes t.status u.ordered

  reconcile-unread :
      (e : String) (s' : Run)
      → gather env tunnel s ≡ (error e, s')
      → reconcile env tunnel s ≡ (error e, s')
  unfolding reconcile
  reconcile-unread e s' h = ap (λ r. continue_with r (settle env tunnel)) h

unseen-unsettled :
    (env : Env) (tunnel : JprqTunnel)
    → tunnel.status.observed_generation ≢ tunnel.generation
    → is_settled_failure env tunnel ≡ false
unseen-unsettled env tunnel h =
    ground (arith, =ℤ=-iff tunnel.status.observed_generation tunnel.generation)

-- The edit of a failed tunnel can be lost. Say a tunnel is not being deleted and is failed at a
-- generation that is not its present one, and deep equality tells such generations apart. If the
-- request cannot read the pod, the Secret, the Service or the slices, it returns the error, and it
-- writes a status that is still failed and carries the present generation. Once that status is
-- what the API server holds, every later request makes one read and nothing else, and asks for no
-- requeue.
pub unread_edit_lost :
    (env : Env) (tunnel : JprqTunnel) (name : String) (resolver : Resolver) (e : String) (s : Run)
    (later : Env) (resolver' : Resolver)
    → env.api.get_tunnel name ≡ found tunnel
    → tunnel.deletion_timestamp ≡ none
    → tunnel.status.phase ≡ failed
    → tunnel.status.observed_generation ≢ tunnel.generation
    → ((st st' : JprqTunnelStatus)
        → env.ext.deep_equal st st' ≡ true
        → st.observed_generation ≡ st'.observed_generation)
    → gather env tunnel (start env name resolver tunnel) ≡ (error e, s)
    → later.api.get_tunnel name ≡ found (written env tunnel s)
    → (reconcile_request env name resolver
        ≡ (error e, s.resolver, s.calls ++ patched (written env tunnel s) ∷ []))
      × (reconcile_request later name resolver'
          ≡ (done no_requeue, resolver', got_tunnel name ∷ []))
unread_edit_lost env tunnel name resolver e s later resolver' get live phase unseen tells unread
      held =
    let before = start env name resolver tunnel in
    (
      failure_reported env tunnel name resolver get live (unseen-unsettled env tunnel unseen) e s
          (reconcile-unread env tunnel before e s unread)
          (elim (Bool-cases (env.ext.deep_equal tunnel.status (written env tunnel s).status)) [
            | inl same ↦ absurd (unseen (tells tunnel.status (written env tunnel s).status same))
            | inr differs ↦ differs
          ]),
      settled_failure_untouched later name resolver' (written env tunnel s) held
          (ap (λ r. r.1.status.phase) (sym unread) ∙ gather-phase env tunnel before ∙ phase) refl,
    )
