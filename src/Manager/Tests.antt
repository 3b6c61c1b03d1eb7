-- ===== src/Manager/Tests.antt =====
-- cmd/main.go: the theorems of Manager, at the default options.
use jprq_bek.Base.{◌≡◌, ◌≢◌, ◌↔◌, none, some}
use jprq_bek.Api.{pending}
use jprq_bek.Kube.{found}
use jprq_bek.Controller.Calls.{cached_namespaces}
use jprq_bek.Controller.Watches.{backend_service, token_secret}
use jprq_bek.Controller.Reconcile.{reconcile_request}
use jprq_bek.Controller.Tests.Samples.{
  sample_ext, sample_answers, sample_resolver, sample_pod, ready_status,
}
use jprq_bek.Manager.{
  default_options, manager_options, reconciler, Startup, start_manager, exit_code,
}
use jprq_bek.Manager.Wiring.{Served, reads-Served, exit_code-start_manager}

reads-Served_example :
    let answers = sample_answers pending (found (sample_pod ready_status)) in
    let reads =
      cached_namespaces
        (reconcile_request
          (reconciler default_options sample_ext answers)
          "shop"
          sample_resolver).2 in
    Served (manager_options default_options).pod_namespaces reads
    × Served (manager_options default_options).secret_namespaces reads
reads-Served_example =
    reads-Served default_options sample_ext
      (sample_answers pending (found (sample_pod ready_status))) "shop" sample_resolver

-- The manager stops with an error.
abbrev failing_run : Startup
failing_run = record {
  new_manager = λ options. none;
  index_field = λ index. none;
  complete = none;
  healthz_check = none;
  readyz_check = none;
  run = some "leader election lost";
}

exit_code-start_manager_example : (exit_code (start_manager default_options failing_run) ≡ 0) ↔ (
    (failing_run.new_manager (manager_options default_options) ≡ none)
    × (default_options.operator_namespace ≢ "")
    × (default_options.agent_image ≢ "")
    × (failing_run.index_field backend_service ≡ none)
    × (failing_run.index_field token_secret ≡ none)
    × (failing_run.complete ≡ none)
    × (failing_run.healthz_check ≡ none)
    × (failing_run.readyz_check ≡ none)
    × (failing_run.run ≡ none))
exit_code-start_manager_example = exit_code-start_manager default_options failing_run
