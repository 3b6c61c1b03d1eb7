-- ===== src/Controller/Reconcile/Worlds.antt =====
-- internal/controller/jprqtunnel_controller.go, `reconcile`: a tunnel's way through several
-- reconciliations, as its agent pod changes in between.
use jprq_bek.Base.{◌==◌, ◌≡◌, refl, ap, ◌∙◌, eq_refl, true, false, none, some, lookup_or_empty}
use jprq_bek.Api.{JprqTunnel}
use jprq_bek.Kube.{Pod, ContainerStatus, Fetched, found, missing, deleted}
use jprq_bek.Controller.Classify.{agent_status}
use jprq_bek.Controller.Pods.{spec_hash_annotation}
use jprq_bek.Controller.Run.{Env, Run, created, deleted_pod}
use jprq_bek.Controller.Backend.{backend_info}
use jprq_bek.Controller.Actions.{agent_config}
use jprq_bek.Controller.Settle.{is_current}
use jprq_bek.Controller.Reconcile.{reconcile}
use jprq_bek.Controller.Reconcile.Report.{Serving}
use jprq_bek.Controller.Reconcile.Converges.{
  IsActive, IsWaitingAfter, Wanted, reconcile-IsActive, reconcile-created, reconcile-recreated,
}

-- The same world, with this answer to a Get of a pod.
abbrev pub with_pod : Env → Fetched Pod → Env
with_pod env answer = record env { api = record env.api { get_pod = λ namespace name. answer } }

-- This pod came from that one: it has its annotations, and its agent runs and is ready.
pub record IsReadyFrom (desired pod : Pod) : Type 0 where
  pub cs : ContainerStatus
  pub same : pod.annotations ≡ desired.annotations
  pub kept : pod.deletion_timestamp ≡ none
  pub status : agent_status pod ≡ some cs
  pub running : cs.state.running ≡ true
  pub ready : cs.ready ≡ true

module _ (env : Env) (tunnel : JprqTunnel) (w : Wanted env tunnel) (answer : Fetched Pod) where
  -- What a tunnel wants does not depend on its pod.
  wanted_with : Wanted (with_pod env answer) tunnel
  unfolding backend_info agent_config
  wanted_with =
      let t = w.has_token in
      let b = w.has_backend in
      record {
        token = w.token;
        backend = w.backend;
        desired = w.desired;
        has_token = record {
          secret = t.secret;
          read = t.read;
          held = t.held;
          not_blank = t.not_blank;
        };
        has_backend = record {
          svc = b.svc;
          port = b.port;
          slices = b.slices;
          read = b.read;
          resolved = b.resolved;
          listed = b.listed;
          serving = b.serving;
          info = b.info;
        };
        built = w.built;
      }

module _ (env : Env) (tunnel : JprqTunnel) (w : Wanted env tunnel) where
  ready-current :
      (new : Pod)
      → IsReadyFrom w.desired new
      → is_current (with_pod env (found new)) new w.desired ≡ true
  ready-current new r =
      ap
        (λ a.
          lookup_or_empty spec_hash_annotation a
          == lookup_or_empty spec_hash_annotation w.desired.annotations)
        r.same
      ∙ eq_refl (lookup_or_empty spec_hash_annotation w.desired.annotations)

  ready-Serving :
      (new : Pod) → IsReadyFrom w.desired new → Serving (with_pod env (found new)) tunnel
  unfolding wanted_with
  ready-Serving new r =
      let w' = wanted_with env tunnel w (found new) in
      record {
        token = w'.token;
        backend = w'.backend;
        pod = new;
        cs = r.cs;
        desired = w'.desired;
        has_token = w'.has_token;
        has_backend = w'.has_backend;
        read = refl;
        kept = r.kept;
        status = r.status;
        running = r.running;
        ready = r.ready;
        built = w'.built;
        current = ready-current new r;
      }

  -- An edited tunnel comes back. Where its preconditions hold, its pod is outdated and is not being
  -- deleted, and the API server grants the deletion and the creation: one reconciliation deletes the
  -- outdated pod and waits; the next one, when the pod is gone, creates the wanted pod and waits; and
  -- the next one, when a pod with the annotations of the wanted one runs and is ready, makes the tunnel
  -- active; whatever the status was before each of them.
  pub outdated-IsActive :
      (old new : Pod) (s₀ s₁ s₂ : Run)
      → old.deletion_timestamp ≡ none
      → is_current env old w.desired ≡ false
      → env.api.delete_pod old ≡ deleted
      → env.api.create_pod w.desired ≡ none
      → IsReadyFrom w.desired new
      → IsWaitingAfter (deleted_pod old) (reconcile (with_pod env (found old)) tunnel s₀)
        × IsWaitingAfter (created w.desired) (reconcile (with_pod env missing) tunnel s₁)
        × IsActive (reconcile (with_pod env (found new)) tunnel s₂)
  unfolding wanted_with
  outdated-IsActive old new s₀ s₁ s₂ kept outdated deletes creates ready = (
    reconcile-recreated (with_pod env (found old)) tunnel (wanted_with env tunnel w (found old)) old
        s₀ refl kept outdated deletes,
    reconcile-created (with_pod env missing) tunnel (wanted_with env tunnel w missing) s₁ refl
        creates,
    reconcile-IsActive (with_pod env (found new)) tunnel s₂ (ready-Serving new ready),
  )
