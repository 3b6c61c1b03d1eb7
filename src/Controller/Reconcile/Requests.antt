-- ===== src/Controller/Reconcile/Requests.antt =====
-- internal/controller/jprqtunnel_controller.go, `Reconcile` and `patchStatus`: what becomes of a request.
use jprq_bek.Base.{
  ◌≡◌, ◌⊎◌, ◌∙◌, ap, refl, sym, inl, inr, String, Bool-cases, true, false, List, [], ◌∷◌, ◌++◌,
  Option, none, some, arith, =ℤ=-iff,
}
use jprq_bek.Api.{JprqTunnel, failed}
use jprq_bek.Kube.{found}
use jprq_bek.JprqConfig.{Resolver}
use jprq_bek.Controller.Run.{
  Env, Run, Requeue, Outcome, done, error, panic, Call, got_tunnel, patched,
}
use jprq_bek.Controller.Ends.{Ends}
use jprq_bek.Controller.Actions.{no_requeue}
use jprq_bek.Controller.Reconcile.{
  with_patch_error, patch_status, finish, is_settled_failure, start, handle, reconcile,
  reconcile_request,
}
use jprq_bek.Controller.Reconcile.Report.{Report, reconcile_honest}

-- A tunnel that failed at its present generation costs one read, and nothing else: no other call is made
-- and no requeue is asked for.
pub settled_failure_untouched :
    (env : Env) (name : String) (resolver : Resolver) (tunnel : JprqTunnel)
    → env.api.get_tunnel name ≡ found tunnel
    → tunnel.status.phase ≡ failed
    → tunnel.status.observed_generation ≡ tunnel.generation
    → reconcile_request env name resolver ≡ (done no_requeue, resolver, got_tunnel name ∷ [])
unfolding reconcile_request handle
settled_failure_untouched env name resolver tunnel h p g =
    rw h (ground (arith, =ℤ=-iff tunnel.status.observed_generation tunnel.generation))

module _ (env : Env) (tunnel : JprqTunnel) where
  -- The tunnel as it is to be stored after a reconciliation that left this status: with its present
  -- generation as the observed one.
  abbrev pub written : Run → JprqTunnel
  written s = record tunnel { status = record s.status { observed_generation = tunnel.generation } }

  -- What the API server holds after a request: the status that it held, if that is equal to the new
  -- one, else the new one, which it accepted.
  abbrev pub Stored : Run → List Call → Type 0
  Stored s calls =
      ((env.ext.deep_equal tunnel.status (written s).status ≡ true) × (calls ≡ s.calls))
      ⊎ ((env.api.patch_status (written s) ≡ none) × (calls ≡ s.calls ++ patched (written s) ∷ []))

  -- The outcome of a request is a value, and the stored status is honest.
  pub record Settled (rq : Requeue) (calls : List Call) : Type 0 where
    pub final : Run
    pub report : Report env tunnel rq final
    pub stored : Stored final calls

  with_patch_error_done :
      (rq rq' : Requeue) (answer : Option String)
      → with_patch_error env (done rq) answer ≡ done rq'
      → (answer ≡ none) × (rq ≡ rq')
  with_patch_error_done rq rq' none h = (refl, cc)
  with_patch_error_done rq rq' (some e) h = cc

  with_patch_error_first :
      (e : String) (answer : Option String) → with_patch_error env (error e) answer ≡ error e
  with_patch_error_first e none = refl
  with_patch_error_first e (some x) = refl

  patch_status_done :
      (rq rq' : Requeue) (s : Run)
      → Report env tunnel rq s
      → (patch_status env tunnel (done rq) s).0 ≡ done rq'
      → Settled rq' (patch_status env tunnel (done rq) s).2
  unfolding patch_status
  patch_status_done rq rq' s r h =
      elim (Bool-cases (env.ext.deep_equal tunnel.status (written s).status)) [
        | inl same ↦
            rw same
              (record { final = s; report = rw (← same_requeue same) r; stored = inl (same, refl) })
        | inr changed ↦
            let (accepted, e) = with_patch_error_done rq rq' _ (rw changed at h) in
            rw changed (record { final = s; report = rw (← e) r; stored = inr (accepted, refl) })
      ]
    where
      same_requeue : env.ext.deep_equal tunnel.status (written s).status ≡ true → rq ≡ rq'
      same_requeue same = (with_patch_error_done rq rq' none (rw same at h)).1

  patch_status_error : (e : String) (s : Run) → (patch_status env tunnel (error e) s).0 ≡ error e
  unfolding patch_status
  patch_status_error e s = elim (Bool-cases (env.ext.deep_equal tunnel.status (written s).status)) [
    | inl same ↦ rw same
    | inr changed ↦ rw changed (with_patch_error_first e _)
  ]

  patch_status_failed :
      (e : String) (s : Run)
      → env.ext.deep_equal tunnel.status (written s).status ≡ false
      → finish env tunnel (error e, s) ≡ (error e, s.resolver, s.calls ++ patched (written s) ∷ [])
  unfolding finish patch_status
  patch_status_failed e s changed =
      rw changed (
        ap (λ o. (o, s.resolver, s.calls ++ patched (written s) ∷ [])) (with_patch_error_first e _))

  finish_done :
      (o : Outcome Requeue × Run) (rq : Requeue)
      → Ends (Report env tunnel) (λ _. Unit) o
      → (finish env tunnel o).0 ≡ done rq
      → Settled rq (finish env tunnel o).2
  unfolding finish
  finish_done (done r, s) rq h e = patch_status_done r rq s h.holds e
  finish_done (error x, s) rq h e = absurd (error_not_done x rq (sym (patch_status_error x s) ∙ e))
    where
      error_not_done : (x : String) (rq : Requeue) → error x ≡ done rq → ⊥
      error_not_done x rq p = cc
  finish_done (panic, s) rq h e = absurd h.holds

module _ (env : Env) (tunnel : JprqTunnel) (name : String) (resolver : Resolver)
    (get : env.api.get_tunnel name ≡ found tunnel) (live : tunnel.deletion_timestamp ≡ none)
    (unsettled : is_settled_failure env tunnel ≡ false) where
  abbrev pub reconciled : Outcome Requeue × Run
  reconciled = reconcile env tunnel (start env name resolver tunnel)

  request_lem : reconcile_request env name resolver ≡ finish env tunnel reconciled
  unfolding reconcile_request handle
  request_lem = rw get (rw (live, unsettled))

  -- A request for a tunnel that exists, is not being deleted and has not failed at its present
  -- generation: if it returns no error, the API server holds a status that is honest, in the sense
  -- of `Report`, and carries the generation, or holds one that is deeply equal to such a status; and
  -- the requeue is the one that goes with the phase.
  pub reconcile_request-Settled :
      (rq : Requeue)
      → (reconcile_request env name resolver).0 ≡ done rq
      → Settled env tunnel rq (reconcile_request env name resolver).2
  reconcile_request-Settled rq e = rw request_lem (
      finish_done env tunnel reconciled rq
        (reconcile_honest env tunnel (start env name resolver tunnel))
        (ap (λ o. o.0) (sym request_lem) ∙ e))

  -- A reconciliation of a tunnel that exists, is not being deleted and has not failed at its present
  -- generation still reports when it fails half-way: if its status differs from the stored one, the
  -- request writes it, after all other calls, and returns the error of the reconciliation, whether or
  -- not the write is refused.
  pub failure_reported :
      (e : String) (s : Run)
      → reconciled ≡ (error e, s)
      → env.ext.deep_equal tunnel.status (written env tunnel s).status ≡ false
      → reconcile_request env name resolver
        ≡ (error e, s.resolver, s.calls ++ patched (written env tunnel s) ∷ [])
  failure_reported e s h changed =
      request_lem ∙ ap (finish env tunnel) h ∙ patch_status_failed env tunnel e s changed
