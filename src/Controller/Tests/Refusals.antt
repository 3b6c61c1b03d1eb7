-- ===== src/Controller/Tests/Refusals.antt =====
-- internal/controller/jprqtunnel_controller.go: the API server refuses to delete the sample tunnel's pod.
use jprq_bek.Base.{◌≡◌, ◌++◌, ◌<>◌, refl, true, some, [], ◌∷◌, pos, ok, eq_refl}
use jprq_bek.Api.{JprqTunnelStatus, collision_fail, pending, failed}
use jprq_bek.Kube.{Pod, found, not_deleted}
use jprq_bek.Controller.Classify.{
  agent_status, status_of, classify_pod, classify_exit, judge_status,
}
use jprq_bek.Controller.Token.Evidence.{HasToken}
use jprq_bek.Controller.Backend.{backend_info}
use jprq_bek.Controller.Backend.Evidence.{HasBackend}
use jprq_bek.Controller.Pods.{desired_pod}
use jprq_bek.Controller.Actions.{no_requeue, agent_config}
use jprq_bek.Controller.Settle.{is_current}
use jprq_bek.Controller.Run.{Env, Run, done, error, got_tunnel, patched}
use jprq_bek.Controller.Reconcile.{reconcile, reconcile_request, start}
use jprq_bek.Controller.Reconcile.Converges.{Wanted}
use jprq_bek.Controller.Reconcile.Requests.{written}
use jprq_bek.Controller.Reconcile.Refusals.{refused_deletion_abandons_pod}
use jprq_bek.Controller.Tests.Samples.{sample_env, sample_tunnel, sample_resolver, exited_status}
use jprq_bek.Controller.Tests.Pods.{
  new_token, front_backend, new_pod, new_pod_built, new_token_checked, front_backend_checked,
}

-- The agent has exited with code 13.
abbrev rejected_pod : Pod
rejected_pod = record new_pod { container_statuses = exited_status (pos 13) ∷ [] }

abbrev stuck_env : Env
stuck_env = record (sample_env pending (found rejected_pod)) {
  api = record (sample_env pending (found rejected_pod)).api {
    delete_pod = λ pod. not_deleted "webhook down";
  };
}

stuck_token : HasToken stuck_env (sample_tunnel pending) new_token
stuck_token =
    let h = new_token_checked in
    record { secret = h.secret; read = h.read; held = h.held; not_blank = h.not_blank }

stuck_backend : HasBackend stuck_env (sample_tunnel pending) front_backend
unfolding backend_info
stuck_backend =
    let h = front_backend_checked in
    record {
      svc = h.svc;
      port = h.port;
      slices = h.slices;
      read = h.read;
      resolved = h.resolved;
      listed = h.listed;
      serving = h.serving;
      info = h.info;
    }

stuck_built :
    desired_pod stuck_env.ext (sample_tunnel pending) (
      agent_config stuck_env
        (sample_tunnel pending)
        (sample_tunnel pending).spec.subdomain
        front_backend
        new_token)
    ≡ ok new_pod
unfolding agent_config
stuck_built = new_pod_built

abbrev stuck_wanted : Wanted stuck_env (sample_tunnel pending)
stuck_wanted = record {
  token = new_token;
  backend = front_backend;
  desired = new_pod;
  has_token = stuck_token;
  has_backend = stuck_backend;
  built = stuck_built;
}

abbrev stuck_run : Run
stuck_run =
    (reconcile stuck_env (sample_tunnel pending)
      (start stuck_env "shop" sample_resolver (sample_tunnel pending))).1

-- The world afterwards: the status is stored, and the pod is still there.
abbrev later_env : Env
later_env = record stuck_env {
  api = record stuck_env.api {
    get_tunnel = λ name. found (written stuck_env (sample_tunnel pending) stuck_run);
  };
}

rejected_judged :
    classify_pod rejected_pod collision_fail ≡ some (classify_exit (pos 13) collision_fail, pos 13)
unfolding classify_pod agent_status status_of judge_status
rejected_judged = refl

rejected_terminal : (classify_exit (pos 13) collision_fail).terminal ≡ true
unfolding classify_exit
rejected_terminal = refl

rejected_current : is_current stuck_env rejected_pod new_pod ≡ true
rejected_current = eq_refl _

told_apart :
    (st st' : JprqTunnelStatus)
    → stuck_env.ext.deep_equal st st' ≡ true
    → (st.phase ≡ st'.phase) × (st.observed_generation ≡ st'.observed_generation)
told_apart st st' h = cc

refused_deletion_abandons_pod_example :
    (reconcile_request stuck_env "shop" sample_resolver ≡ (
      error ("deleting failed agent pod: " <> "webhook down"),
      stuck_run.resolver,
      stuck_run.calls ++ patched (written stuck_env (sample_tunnel pending) stuck_run) ∷ [],
    ))
    × (stuck_run.status.phase ≡ failed)
    × (reconcile_request later_env "shop" sample_resolver
        ≡ (done no_requeue, sample_resolver, got_tunnel "shop" ∷ []))
refused_deletion_abandons_pod_example =
    refused_deletion_abandons_pod stuck_env (sample_tunnel pending) "shop" sample_resolver
      stuck_wanted rejected_pod (classify_exit (pos 13) collision_fail) (pos 13) "webhook down"
      later_env sample_resolver refl refl refl refl refl rejected_current rejected_judged
      rejected_terminal refl told_apart refl
