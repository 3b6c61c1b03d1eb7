-- ===== src/Controller/Cluster/Owners.antt =====
-- internal/controller/jprqtunnel_controller.go and pod.go: the pods that one request writes.
use text.Mathlib.TextLemmas.{append_cancel_left}
use jprq_bek.Base.{
  ◌≡◌, ◌↔◌, refl, sym, ap, ◌∙◌, Bool, true, false, String, List, [], ◌++◌, All, is_some, ok,
  if◌then◌else◌,
}
use mathlib.Core.Path.{subst}
use jprq_bek.Api.{JprqTunnel}
use jprq_bek.Kube.{Pod, Fetched, found, missing, refused, External}
use jprq_bek.JprqConfig.{Resolver}
use jprq_bek.Controller.Pods.{AgentPodConfig, pod_name, desired_pod, unowned_pod}
use jprq_bek.Controller.Pods.Agreement.{with_owner-owned}
use jprq_bek.Controller.Run.{Env, Run, Requeue, Outcome, done, error, panic}
use jprq_bek.Controller.Ends.{Ends}
use jprq_bek.Controller.Calls.{PodWrite, create, delete, pod_writes}
use jprq_bek.Controller.Actions.{agent_config}
use jprq_bek.Controller.Reconcile.{Handled, handle, reconcile, start, is_settled_failure}
use jprq_bek.Controller.Reconcile.PodWrites.{
  PodsWritten, PodWriteReason, no_write, creates_missing, deletes_outdated, deletes_rejected,
  reconcile_pod_writes,
}
use jprq_bek.Controller.Steady.Idle.{finish-pod_writes}
use jprq_bek.Controller.Cluster.{GivesPods}

-- The pod that is written.
abbrev pub pod_of : PodWrite → Pod
pod_of (create pod) = pod
pod_of (delete pod) = pod

-- The pod is in the namespace, and has the name that belongs to this tunnel and to no other.
abbrev pub Owned : String → String × PodWrite → Type 0
Owned namespace (name, w) =
    ((pod_of w).namespace ≡ namespace)
    × ((other : String) → ((pod_of w).name ≡ pod_name other) ↔ (other ≡ name))

pod_name-injective : (a b : String) → pod_name a ≡ pod_name b → a ≡ b
unfolding pod_name
pod_name-injective a b h = append_cancel_left "jprq-" a b h

named-Owned :
    (namespace name : String) (w : PodWrite)
    → (pod_of w).namespace ≡ namespace
    → (pod_of w).name ≡ pod_name name
    → Owned namespace (name, w)
named-Owned namespace name w h k =
    (h, λ other. (λ e. pod_name-injective other name (sym e ∙ k), λ e. k ∙ ap pod_name (sym e)))

built-named :
    (ext : External) (tunnel : JprqTunnel) (cfg : AgentPodConfig) (pod : Pod)
    → desired_pod ext tunnel cfg ≡ ok pod
    → (pod.name ≡ pod_name tunnel.name) × (pod.namespace ≡ cfg.operator_namespace)
unfolding desired_pod
built-named ext tunnel cfg pod built =
    let (refs, e) =
      with_owner-owned ext (unowned_pod ext tunnel cfg) pod
        (ext.owner_references tunnel (unowned_pod ext tunnel cfg)) built in
    (ap (λ p. p.name) (sym e), ap (λ p. p.namespace) (sym e))

module _ (env : Env) (tunnel : JprqTunnel) (gives : GivesPods env) where
  abbrev OwnedHere : PodWrite → Type 0
  OwnedHere w = Owned env.operator_namespace (tunnel.name, w)

  given-Owned :
      (w : PodWrite)
      → env.api.get_pod env.operator_namespace (pod_name tunnel.name) ≡ found (pod_of w)
      → OwnedHere w
  given-Owned w read =
      let (name, namespace) = gives env.operator_namespace (pod_name tunnel.name) (pod_of w) read in
      named-Owned env.operator_namespace tunnel.name w namespace name

  reason-Owned : (writes : List PodWrite) → PodWriteReason env tunnel writes → All OwnedHere writes
  unfolding agent_config
  reason-Owned writes no_write = tt
  reason-Owned writes (creates_missing {desired} read w) =
      let cfg = agent_config env tunnel tunnel.spec.subdomain w.backend w.token in
      let (name, namespace) = built-named env.ext tunnel cfg desired w.built in
      (named-Owned env.operator_namespace tunnel.name (create desired) namespace name, tt)
  reason-Owned writes (deletes_outdated {pod} live w outdated) =
      (given-Owned (delete pod) live.0, tt)
  reason-Owned writes (deletes_rejected {pod} live judged terminal) =
      (given-Owned (delete pod) live.0, tt)

  written-Owned :
      (s t : Run)
      → pod_writes s.calls ≡ []
      → PodsWritten env tunnel s t
      → All OwnedHere (pod_writes t.calls)
  written-Owned s t e w =
      subst (All OwnedHere) (sym (w.made ∙ ap (λ l. l ++ w.writes) e)) (reason-Owned w.writes w.why)

  ended-Owned :
      (s : Run) (r : Outcome Requeue × Run)
      → pod_writes s.calls ≡ []
      → Ends (λ _. PodsWritten env tunnel s) (PodsWritten env tunnel s) r
      → All OwnedHere (pod_writes r.1.calls)
  ended-Owned s (done rq, t) e h = written-Owned s t e h.holds
  ended-Owned s (error x, t) e h = written-Owned s t e h.holds
  ended-Owned s (panic, t) e h = absurd h.holds

  handle-Owned :
      (name : String) (resolver : Resolver)
      → All OwnedHere (pod_writes (handle env name resolver (found tunnel)).2)
  unfolding handle
  handle-Owned name resolver =
      either (is_some tunnel.deletion_timestamp) (is_settled_failure env tunnel) _ _ _ tt tt (
        subst (All OwnedHere) (sym (finish-pod_writes env tunnel reconciled)) (
          ended-Owned (start env name resolver tunnel) reconciled refl
            (reconcile_pod_writes env tunnel (start env name resolver tunnel))))
    where
      reconciled : Outcome Requeue × Run
      reconciled = reconcile env tunnel (start env name resolver tunnel)

      either :
          (b c : Bool) (x y z : Handled env)
          → All OwnedHere (pod_writes x.2)
          → All OwnedHere (pod_writes y.2)
          → All OwnedHere (pod_writes z.2)
          → All OwnedHere (pod_writes (if b then x else if c then y else z).2)
      either true c x y z p q r = p
      either false true x y z p q r = q
      either false false x y z p q r = r

-- The pods that a request writes.
pub reply-Owned :
    (env : Env) (name : String) (resolver : Resolver) (reply : Fetched JprqTunnel)
    → GivesPods env
    → ((t : JprqTunnel) → reply ≡ found t → t.name ≡ name)
    → All
        (λ w. Owned env.operator_namespace (name, w))
        (pod_writes (handle env name resolver reply).2)
unfolding handle
reply-Owned env name resolver (refused e) gives named = tt
reply-Owned env name resolver missing gives named = tt
reply-Owned env name resolver (found tunnel) gives named =
    subst
      (λ n.
        All (λ w. Owned env.operator_namespace (n, w))
          (pod_writes (handle env name resolver (found tunnel)).2))
      (named tunnel refl) (handle-Owned env tunnel gives name resolver)
