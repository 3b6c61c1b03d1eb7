-- ===== src/Manager/Wiring.antt =====
-- cmd/main.go: what the parts can rely on.
use mathlib.Core.List.{Memᴰ}
use jprq_bek.Base.{
  ℕ, ◌≡◌, ◌≢◌, ◌↔◌, refl, String, true, false, List, [], ◌∷◌, Option, none, some, All, arith,
}
use jprq_bek.Kube.{External, Answers}
use jprq_bek.JprqConfig.{Resolver}
use jprq_bek.Controller.Calls.{cached_namespaces}
use jprq_bek.Controller.Watches.{backend_service, token_secret, setup_with_manager}
use jprq_bek.Controller.Watches.Setup.{setup_with_manager_succeeds}
use jprq_bek.Controller.Reconcile.{reconcile_request}
use jprq_bek.Controller.Reconcile.Cached.{reconcile_request-InCache}
use jprq_bek.Manager.{
  Options, TlsConfig, TlsOpt, metrics_options, webhook_options, manager_options, reconciler,
  Startup, first_failure, start_manager, exit_code, failed_manager, failed_controller,
  failed_healthz, failed_readyz, failed_run,
}

-- The cache serves the namespace.
abbrev pub Served : List String → List String → Type 0
Served namespaces reads = All (λ n. Memᴰ n namespaces) reads

Served-by :
    (namespace : String) (reads : List String)
    → All (λ n. n ≡ namespace) reads
    → Served (namespace ∷ []) reads
Served-by namespace [] h = tt
Served-by namespace (n ∷ reads) h = (Memᴰ.head h.0, Served-by namespace reads h.1)

-- Whatever the options and the answers of the API server, each Get of a pod or a Secret that a request
-- makes is in a namespace for which the manager caches pods and Secrets.
pub reads-Served :
    (o : Options) (ext : External) (api : Answers) (name : String) (resolver : Resolver)
    → let reads = cached_namespaces (reconcile_request (reconciler o ext api) name resolver).2 in
      Served (manager_options o).pod_namespaces reads
      × Served (manager_options o).secret_namespaces reads
unfolding reconciler manager_options
reads-Served o ext api name resolver =
    let h =
      Served-by o.operator_namespace _
        (reconcile_request-InCache (reconciler o ext api) name resolver) in
    (h, h)

-- The configuration of a server, from that of its library.
abbrev configured : List TlsOpt → TlsConfig → TlsConfig
configured [] c = c
configured (opt ∷ opts) c = configured opts (opt c)

-- Without --enable-http2, the metrics server and the webhook server both offer HTTP/1.1 alone, whatever
-- the libraries' configuration was.
http2_disabled :
    (o : Options) (c : TlsConfig)
    → o.enable_http2 ≡ false
    → ((configured (metrics_options o).opts c).next_protos ≡ "http/1.1" ∷ [])
      × ((configured (webhook_options o).opts c).next_protos ≡ "http/1.1" ∷ [])
unfolding metrics_options webhook_options
http2_disabled o c h = rw h (refl, refl)

abbrev outcome_of : (a b c d e : Option String) → ℕ
outcome_of a b c d e = exit_code (
    first_failure (
      (a, failed_manager)
      ∷ (b, failed_controller)
      ∷ (c, failed_healthz)
      ∷ (d, failed_readyz)
      ∷ (e, failed_run)
      ∷ []))

outcome_of-zero :
    (a b c d e : Option String)
    → (outcome_of a b c d e ≡ 0) ↔ ((a ≡ none) × (b ≡ none) × (c ≡ none) × (d ≡ none) × (e ≡ none))
unfolding first_failure exit_code
outcome_of-zero (some x) b c d e = ground arith
outcome_of-zero none (some x) c d e = ground arith
outcome_of-zero none none (some x) d e = ground arith
outcome_of-zero none none none (some x) e = ground arith
outcome_of-zero none none none none (some x) = ground arith
outcome_of-zero none none none none none = ground arith

-- The process ends with code 0 exactly when the manager is made, the operator namespace and the agent
-- image are given, both indexes are registered, the controller completes, both checks are added, and
-- the manager runs and stops without an error.
pub exit_code-start_manager :
    (o : Options) (s : Startup)
    → (exit_code (start_manager o s) ≡ 0) ↔ (
        (s.new_manager (manager_options o) ≡ none)
        × (o.operator_namespace ≢ "")
        × (o.agent_image ≢ "")
        × (s.index_field backend_service ≡ none)
        × (s.index_field token_secret ≡ none)
        × (s.complete ≡ none)
        × (s.healthz_check ≡ none)
        × (s.readyz_check ≡ none)
        × (s.run ≡ none))
unfolding start_manager
exit_code-start_manager o s =
    let made = s.new_manager (manager_options o) in
    let set_up =
      setup_with_manager o.operator_namespace o.agent_image true s.index_field s.complete in
    let steps = outcome_of-zero made set_up s.healthz_check s.readyz_check s.run in
    let parts =
      setup_with_manager_succeeds o.operator_namespace o.agent_image true s.index_field
        s.complete in
    (
      λ h.
          let (m, u, c, d, e) = steps.0 h in
          let (n, i, r, b, t, k) = parts.0 u in (m, n, i, b, t, k, c, d, e),
      λ (m, n, i, b, t, k, c, d, e). steps.1 (m, parts.1 (n, i, refl, b, t, k), c, d, e),
    )
