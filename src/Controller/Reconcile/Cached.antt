-- ===== src/Controller/Reconcile/Cached.antt =====
-- internal/controller/jprqtunnel_controller.go: the namespaces from which pods and Secrets are read.
use mathlib.Core.Path.{subst}
use jprq_bek.Base.{
  ◌≡◌, sym, String, Bool, true, false, List, [], ◌∷◌, ◌++◌, All, if◌then◌else◌, is_some,
}
use jprq_bek.Api.{JprqTunnel}
use jprq_bek.Kube.{Fetched, found, missing, refused}
use jprq_bek.JprqConfig.{Resolver}
use jprq_bek.Controller.Run.{Env, Run, Requeue, Outcome, done, error, panic, Call, patched}
use jprq_bek.Controller.Ends.{Ends, Ends-continue, Ends-mono}
use jprq_bek.Controller.Calls.{
  cached_namespaces, cached_namespaces-append, Reads, Reads-cached, Wrote-refl,
}
use jprq_bek.Controller.Settle.Converging.{settle_writes}
use jprq_bek.Controller.Reconcile.{
  Handled, observed, patch_status, finish, is_settled_failure, start, handle, reconcile,
  reconcile_request,
}
use jprq_bek.Controller.Reconcile.Report.{assigned_start, gather-Ends}

module _ (env : Env) where
  -- Every pod and every Secret that these calls read is in the operator's namespace.
  abbrev pub InCache : List Call → Type 0
  InCache calls = All (λ namespace. namespace ≡ env.operator_namespace) (cached_namespaces calls)

  All-both :
      (l m : List String)
      → All (λ namespace. namespace ≡ env.operator_namespace) l
      → All (λ namespace. namespace ≡ env.operator_namespace) m
      → All (λ namespace. namespace ≡ env.operator_namespace) (l ++ m)
  All-both [] m h k = k
  All-both (n ∷ l) m h k = (h.0, All-both l m h.1 k)

  InCache-append : (l m : List Call) → InCache l → InCache m → InCache (l ++ m)
  InCache-append l m h k =
      rw (cached_namespaces-append l m) (All-both (cached_namespaces l) (cached_namespaces m) h k)

  Reads-InCache : (s t : Run) → Reads env s t → InCache s.calls → InCache t.calls
  Reads-InCache s t q h =
      subst InCache (sym q.appended)
        (InCache-append s.calls q.made h (Reads-cached env q.made q.are_reads))

  same_reads : (l m : List Call) → cached_namespaces m ≡ cached_namespaces l → InCache l → InCache m
  same_reads l m e h = rw e h

  if-InCache :
      (b : Bool) (x y : Handled env) → InCache x.2 → InCache y.2 → InCache (if b then x else y).2
  if-InCache true x y h k = h
  if-InCache false x y h k = k

  module _ (tunnel : JprqTunnel) where
    reconcile-InCache :
        (s : Run)
        → InCache s.calls
        → Ends (λ _ t. InCache t.calls) (λ t. InCache t.calls) (reconcile env tunnel s)
    unfolding reconcile
    reconcile-InCache s h =
        Ends-continue _ _
          (Ends-mono _ (λ _ _ g. g) (λ t q. Reads-InCache (assigned_start env tunnel s) t q h)
            (gather-Ends env tunnel s))
          λ f s₁ g.
            let k = Reads-InCache (assigned_start env tunnel s) s₁ g.reads h in
            Ends-mono _ (λ _ t w. same_reads s₁.calls t.calls w.made.unread k)
              (λ t w. same_reads s₁.calls t.calls w.made.unread k)
              (settle_writes env tunnel f tunnel.spec.subdomain s₁ s₁ g.reads.assigned_kept
                (Wrote-refl s₁.calls))

    patch_status-InCache :
        (o : Outcome Requeue) (s : Run) → InCache s.calls → InCache (patch_status env tunnel o s).2
    unfolding patch_status
    patch_status-InCache o s h =
        if-InCache (env.ext.deep_equal tunnel.status (observed env tunnel s.status)) _ _ h (
          InCache-append s.calls
            (patched (record tunnel { status = observed env tunnel s.status }) ∷ []) h tt)

    finish-InCache :
        (o : Outcome Requeue × Run)
        → Ends (λ _ t. InCache t.calls) (λ t. InCache t.calls) o
        → InCache (finish env tunnel o).2
    unfolding finish
    finish-InCache (done rq, s) h = patch_status-InCache (done rq) s h.holds
    finish-InCache (error e, s) h = patch_status-InCache (error e) s h.holds
    finish-InCache (panic, s) h = absurd h.holds

  handle-InCache :
      (name : String) (resolver : Resolver) (answer : Fetched JprqTunnel)
      → InCache (handle env name resolver answer).2
  unfolding handle
  handle-InCache name resolver (refused e) = tt
  handle-InCache name resolver missing = tt
  handle-InCache name resolver (found tunnel) =
      if-InCache (is_some tunnel.deletion_timestamp) _ _ tt (
        if-InCache (is_settled_failure env tunnel) _ _ tt (
          finish-InCache tunnel (reconcile env tunnel (start env name resolver tunnel))
            (reconcile-InCache tunnel (start env name resolver tunnel) tt)))

  -- Whatever the API server answers, a request reads pods and Secrets in the operator's namespace only.
  pub reconcile_request-InCache :
      (name : String) (resolver : Resolver) → InCache (reconcile_request env name resolver).2
  unfolding reconcile_request
  reconcile_request-InCache name resolver = handle-InCache name resolver (env.api.get_tunnel name)
