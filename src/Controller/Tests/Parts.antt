-- ===== src/Controller/Tests/Parts.antt =====
-- internal/controller: the classifier and the backend's checks at sample objects.
use jprq_bek.Base.{◌≡◌, ◌↔◌, ◌⊎◌, refl, true, some, pos}
use jprq_bek.Api.{auth_failed, collision_retry, collision_fail, str_val}
use jprq_bek.Agent.ServerError.{exit_code_for_server_error}
use jprq_bek.Controller.Classify.{classify_exit, classify_pod}
use jprq_bek.Controller.Classify.Exits.{IsFinal, classify_exit_flags}
use jprq_bek.Controller.Classify.Guard.{Judged, classify_pod_iff}
use jprq_bek.Controller.Classify.Messages.{Decides, is_auth_failed_error, ServerError-verdict}
use jprq_bek.Controller.Backend.{any_ready, resolve_service_port}
use jprq_bek.Controller.Backend.Ports.{
  PortAnswer, ReadyEndpoint, resolve_service_port_exact, any_ready_iff,
}
use jprq_bek.Controller.Tests.Samples.{
  sample_pod, exited_status, sample_service, sample_slices, sample_ext,
}

ServerError-verdict_example :
    Decides
      (classify_exit
        (exit_code_for_server_error "authentication failed: bad token")
        collision_retry)
      auth_failed
      true
      true
ServerError-verdict_example =
    ServerError-verdict "authentication failed: bad token" collision_retry
      (is_auth_failed_error refl)

classify_pod_iff_example :
    (classify_pod (sample_pod (exited_status (pos 13))) collision_fail
      ≡ some (classify_exit (pos 13) collision_fail, pos 13))
    ↔ Judged
        (sample_pod (exited_status (pos 13)))
        collision_fail
        (classify_exit (pos 13) collision_fail)
        (pos 13)
classify_pod_iff_example =
    classify_pod_iff (sample_pod (exited_status (pos 13))) collision_fail
      (classify_exit (pos 13) collision_fail) (pos 13)

classify_exit_flags_example :
    (((classify_exit (pos 10) collision_retry).terminal ≡ true) ↔ IsFinal collision_retry (pos 10))
    × ((classify_exit (pos 10) collision_retry).delete_pod
        ≡ (classify_exit (pos 10) collision_retry).terminal)
    × (((classify_exit (pos 10) collision_retry).token_invalid ≡ true)
        ↔ ((pos 10 ≡ pos 13) ⊎ (pos 10 ≡ pos 15)))
classify_exit_flags_example = classify_exit_flags (pos 10) collision_retry

resolve_service_port_exact_example :
    PortAnswer
      (str_val "http")
      sample_service.ports
      (resolve_service_port sample_ext sample_service (str_val "http"))
resolve_service_port_exact_example =
    resolve_service_port_exact sample_ext sample_service (str_val "http")

any_ready_iff_example : (any_ready sample_slices ≡ true) ↔ ReadyEndpoint sample_slices
any_ready_iff_example = any_ready_iff sample_slices
