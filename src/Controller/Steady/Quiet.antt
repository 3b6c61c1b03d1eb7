-- ===== src/Controller/Steady/Quiet.antt =====
-- internal/controller/jprqtunnel_controller.go, `Reconcile`: the request that follows the writing of a status.
use mathlib.Core.Path.{subst}
use jprq_bek.Base.{
  ◌≡◌, ◌⊎◌, refl, sym, ap, ◌∙◌, String, inl, inr, true, false, [], none, Result, arith,
}
use jprq_bek.Api.{JprqTunnel, JprqTunnelStatus, failed}
use jprq_bek.Kube.{Pod, found}
use jprq_bek.JprqConfig.{Resolver, domain}
use jprq_bek.Controller.Conditions.{SetCondition, KeepsConditions}
use jprq_bek.Controller.Run.{Env, Run, Requeue, Outcome, continue_with, ◌>>=◌}
use jprq_bek.Controller.Calls.{pod_writes}
use jprq_bek.Controller.Settle.{settle}
use jprq_bek.Controller.Reconcile.{
  Handled, reconcile, handle, finish, observed, is_settled_failure, start,
}
use jprq_bek.Controller.Reconcile.Report.{assigned_start}
use jprq_bek.Controller.Reconcile.Requests.{written}
use jprq_bek.Controller.Steady.Log.{cluster_writes}
use jprq_bek.Controller.Steady.Uniform.{at_time, Timed, Ran, Uniform, Course, steady, moved}
use jprq_bek.Controller.Steady.Sequence.{Course-bind}
use jprq_bek.Controller.Steady.Reading.{read_all, read_all-Uniform, gather-read_all}
use jprq_bek.Controller.Steady.Acting.{settle-Turns}
use jprq_bek.Controller.Steady.Idle.{
  settled-failed, handle-cases, stored_again, finish-idle, finish-pod_writes,
}
use jprq_bek.Controller.Steady.Owner.{reconcile-restated}

module _ (env : Env) (tunnel : JprqTunnel) (answer : Result String) where
  -- `reconcile`, behind the assignment of the subdomain.
  abbrev whole : Timed Requeue
  whole set =
      read_all env tunnel tunnel.spec.subdomain env.api.get_config answer set
      >>= settle (at_time env set) tunnel

  whole-Course : Course tunnel.spec.subdomain env.api.get_config answer 1 11 whole
  whole-Course =
      let assigned = tunnel.spec.subdomain in
      let get = env.api.get_config in
      Course-bind assigned get answer 1 5 11 (read_all env tunnel assigned get answer)
        (λ set f. settle (at_time env set) tunnel f) (omega arith)
        (read_all-Uniform env tunnel assigned get answer) (settle-Turns env tunnel assigned answer)

  reconcile-whole :
      (set : SetCondition) (s : Run)
      → reconcile (at_time env set) tunnel s ≡ whole set (assigned_start env tunnel s)
  unfolding reconcile
  reconcile-whole set s =
      ap (λ r. continue_with r (settle (at_time env set) tunnel))
        (gather-read_all env tunnel tunnel.spec.subdomain env.api.get_config answer set s)

module _ (env : Env) (tunnel : JprqTunnel) (name : String) (resolver : Resolver) where
  -- The reconciliation of a request, and the tunnel as `patchStatus` has it behind it.
  abbrev pub reconciled : Outcome Requeue × Run
  reconciled = reconcile env tunnel (start env name resolver tunnel)

  abbrev pub stored : JprqTunnel
  stored = written env tunnel reconciled.1

  -- A later request: it writes nothing, and unless the tunnel is stored as failed it ends as the
  -- reconciliation ended that left the stored status.
  pub record Quiet (r : Handled env) : Type 0 where
    pub writes_nothing : cluster_writes r.2 ≡ []
    pub ends : (stored.status.phase ≡ failed) ⊎ (r.0 ≡ reconciled.0)

  abbrev known : Result String
  known = (domain env.api.get_config resolver).0

  reconciled-Ran :
      (u : Uniform tunnel.spec.subdomain env.api.get_config known 1 11 (whole env tunnel known))
      → Ran tunnel.spec.subdomain env.api.get_config known env.ext.set_status_condition u.outcome
          u.writes
          (assigned_start env tunnel (start env name resolver tunnel))
          reconciled
  reconciled-Ran u =
      let set = env.ext.set_status_condition in
      let s = start env name resolver tunnel in
      subst
        (Ran tunnel.spec.subdomain env.api.get_config known set u.outcome u.writes
          (assigned_start env tunnel s))
        (sym (reconcile-whole env tunnel known set s))
        (u.runs set (assigned_start env tunnel s) (refl, refl))

  module _ (live : tunnel.deletion_timestamp ≡ none)
      (unsettled : is_settled_failure env tunnel ≡ false)
      (keeps : KeepsConditions env.ext.set_status_condition)
      (reflexive : (st : JprqTunnelStatus) → env.ext.deep_equal st st ≡ true)
      (metadata_only : (st : JprqTunnelStatus) (pod : Pod)
        → env.ext.owner_references (record tunnel { status = st }) pod
          ≡ env.ext.owner_references tunnel pod) where
    handle-reconciled : handle env name resolver (found tunnel) ≡ finish env tunnel reconciled
    unfolding handle
    handle-reconciled = rw (live, unsettled)

    module _ (again : SetCondition) (keeps_again : KeepsConditions again) (later : Resolver)
        (same_domain : (domain env.api.get_config later).0 ≡ known)
        (u : Uniform tunnel.spec.subdomain env.api.get_config known 1 11
          (whole env tunnel known)) where
      abbrev second : Outcome Requeue × Run
      second = reconcile (at_time env again) stored (start (at_time env again) name later stored)

      second-Ran :
          Ran tunnel.spec.subdomain env.api.get_config known again u.outcome u.writes
            (assigned_start env tunnel (start env name later stored))
            second
      second-Ran =
          let s = start env name later stored in
          subst
            (Ran tunnel.spec.subdomain env.api.get_config known again u.outcome u.writes
              (assigned_start env tunnel s))
            (sym (
              reconcile-restated (at_time env again) tunnel stored.status
                (metadata_only stored.status) s
              ∙ reconcile-whole env tunnel known again s))
            (u.runs again (assigned_start env tunnel s) (refl, same_domain))

      second_status : observed (at_time env again) stored second.1.status ≡ stored.status
      second_status =
          let first = reconciled-Ran u in
          ap {A = JprqTunnelStatus} (λ st. record st { observed_generation = tunnel.generation })
            second-Ran.wrote
          ∙ stored_again env.ext.set_status_condition again u.writes
              (assigned_start env tunnel (start env name resolver tunnel)).status
              reconciled.1.status tunnel.spec.subdomain tunnel.generation keeps keeps_again
              u.ordered first.wrote first.knows.0

      finished : Quiet (finish (at_time env again) stored second)
      finished =
          subst Quiet
            (sym (
              finish-idle (at_time env again) stored second
                (ap (env.ext.deep_equal stored.status) second_status ∙ reflexive stored.status)))
            (record {
              writes_nothing = second-Ran.quiet;
              ends = inr (second-Ran.ended ∙ sym (reconciled-Ran u).ended);
            })

      handled : Quiet (handle (at_time env again) name later (found stored))
      handled =
          handle-cases (at_time env again) stored name later Quiet live
            (λ settled. record {
              writes_nothing = refl;
              ends = inl (settled-failed (at_time env again) stored settled);
            })
            (λ unsettled. finished)

    -- The world at another time answers a request for the stored tunnel.
    quiet_or_moved :
        (again : SetCondition) (later : Resolver)
        → KeepsConditions again
        → (domain env.api.get_config later).0 ≡ known
        → pod_writes reconciled.1.calls ≡ []
        → Course tunnel.spec.subdomain env.api.get_config known 1 11 (whole env tunnel known)
        → Quiet (handle (at_time env again) name later (found stored))
    quiet_or_moved again later k same unwritten (steady u) = handled again k later same u
    quiet_or_moved again later k same unwritten (moved moves) =
        let set = env.ext.set_status_condition in
        let s = start env name resolver tunnel in
        absurd (
          moves set (assigned_start env tunnel s) (refl, refl)
            (ap (λ r. pod_writes r.1.calls) (sym (reconcile-whole env tunnel known set s))
              ∙ unwritten))

-- A reconciliation does not keep itself going. Say that no answer of the API server or of the domain
-- server changes between two requests but that the second one is for the tunnel with the status that
-- the first one left; that `SetStatusCondition`, at either time, sets a condition, keeps those of other
-- types, and changes nothing where the conditions say the same already; that deep equality is reflexive; and that the owner references do not depend on
-- the status of the owner. If the first request, for a tunnel that is not being deleted and has not
-- failed at its generation, created and deleted no pod, then the second one, at whatever time and with
-- any resolver that knows the same domain, creates and deletes no pod and patches no status; and unless
-- the status left is failed, it ends as the first reconciliation ended, requeue or error.
pub quiet_after_status :
    (env : Env) (tunnel : JprqTunnel) (name : String) (resolver : Resolver) (again : SetCondition)
    (later : Resolver)
    → tunnel.deletion_timestamp ≡ none
    → is_settled_failure env tunnel ≡ false
    → KeepsConditions env.ext.set_status_condition
    → KeepsConditions again
    → ((st : JprqTunnelStatus) → env.ext.deep_equal st st ≡ true)
    → ((st : JprqTunnelStatus) (pod : Pod)
        → env.ext.owner_references (record tunnel { status = st }) pod
          ≡ env.ext.owner_references tunnel pod)
    → (domain env.api.get_config later).0 ≡ (domain env.api.get_config resolver).0
    → pod_writes (handle env name resolver (found tunnel)).2 ≡ []
    → Quiet env tunnel name resolver
        (handle (at_time env again) name later (found (stored env tunnel name resolver)))
quiet_after_status env tunnel name resolver again later live unsettled keeps keeps_again reflexive
      metadata_only same unwritten =
    let r = reconciled env tunnel name resolver in
    quiet_or_moved env tunnel name resolver live unsettled keeps reflexive metadata_only again later
      keeps_again same
      (sym (finish-pod_writes env tunnel r)
        ∙ ap (λ h. pod_writes h.2)
            (sym (
              handle-reconciled env tunnel name resolver live unsettled keeps reflexive
                metadata_only))
        ∙ unwritten)
      (whole-Course env tunnel (domain env.api.get_config resolver).0)
