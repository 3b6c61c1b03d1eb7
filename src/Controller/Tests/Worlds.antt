-- ===== src/Controller/Tests/Worlds.antt =====
-- internal/controller: the sample tunnel's way to an active one.
use jprq_bek.Base.{◌≡◌, ◌↔◌, refl, false, [], ◌∷◌, itoa, itoa_int, print_from, bytes_of}
use jprq_bek.Api.{pending, failed}
use jprq_bek.Kube.{Pod, found, missing}
use jprq_bek.Controller.Classify.{agent_status, status_of}
use jprq_bek.Controller.Json.{
  json_object, json_member, json_more, json_string, json_chars, json_char, json_number,
}
use jprq_bek.Controller.Pods.{spec_hash, token_digest, spec_hash_annotation}
use jprq_bek.Controller.Actions.{agent_config}
use jprq_bek.Controller.Settle.{is_current}
use jprq_bek.Controller.Run.{Run, created, deleted_pod}
use jprq_bek.Controller.Reconcile.{reconcile}
use jprq_bek.Controller.Reconcile.Report.{Serving}
use jprq_bek.Controller.Reconcile.Converges.{
  IsActive, IsWaitingAfter, Wanted, reconcile-IsActive_iff,
}
use jprq_bek.Controller.Reconcile.Worlds.{with_pod, IsReadyFrom, outdated-IsActive}
use jprq_bek.Controller.Tests.Samples.{sample_tunnel, sample_run, sample_status, ready_status}
use jprq_bek.Controller.Tests.Pods.{
  new_env, new_token, front_backend, new_pod, new_pod_built, new_token_checked,
  front_backend_checked,
}

abbrev new_wanted : Wanted new_env (sample_tunnel pending)
new_wanted = record {
  token = new_token;
  backend = front_backend;
  desired = new_pod;
  has_token = new_token_checked;
  has_backend = front_backend_checked;
  built = new_pod_built;
}

abbrev old_pod : Pod
old_pod = record new_pod { annotations = (spec_hash_annotation, "of the old spec") ∷ [] }

abbrev ready_pod : Pod
ready_pod = record new_pod { container_statuses = ready_status ∷ [] }

abbrev failed_run : Run
failed_run = record sample_run { status = sample_status failed }

old_pod_outdated : is_current new_env old_pod new_pod ≡ false
unfolding spec_hash json_object json_member json_more json_string json_chars json_char json_number
    bytes_of token_digest agent_config itoa_int itoa print_from
old_pod_outdated = refl

ready_pod-IsReadyFrom : IsReadyFrom new_pod ready_pod
unfolding agent_status status_of
ready_pod-IsReadyFrom = record {
  cs = ready_status;
  same = refl;
  kept = refl;
  status = refl;
  running = refl;
  ready = refl;
}

outdated-IsActive_example :
    IsWaitingAfter
      (deleted_pod old_pod)
      (reconcile (with_pod new_env (found old_pod)) (sample_tunnel pending) sample_run)
    × IsWaitingAfter
        (created new_pod)
        (reconcile (with_pod new_env missing) (sample_tunnel pending) sample_run)
    × IsActive (reconcile (with_pod new_env (found ready_pod)) (sample_tunnel pending) failed_run)
outdated-IsActive_example =
    outdated-IsActive new_env (sample_tunnel pending) new_wanted old_pod ready_pod sample_run
      sample_run failed_run refl old_pod_outdated refl refl ready_pod-IsReadyFrom

reconcile-IsActive_iff_example :
    IsActive (reconcile new_env (sample_tunnel pending) sample_run)
    ↔ Serving new_env (sample_tunnel pending)
reconcile-IsActive_iff_example = reconcile-IsActive_iff new_env (sample_tunnel pending) sample_run
