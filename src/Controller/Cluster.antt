-- ===== src/Controller/Cluster.antt =====
-- internal/controller/jprqtunnel_controller.go: the requests of many tunnels, in any order, with what
-- users and the cluster do in between.
pub mod Owners
pub mod Isolation
pub mod Sticky
use mathlib.Core.List.{map}
use jprq_bek.Base.{
  ◌≡◌, ◌==◌, ◌⊎◌, String, List, [], ◌∷◌, ◌++◌, Option, none, some, is_some, if◌then◌else◌,
}
use jprq_bek.Api.{JprqTunnel}
use jprq_bek.Kube.{Pod, Fetched, found, missing, refused}
use jprq_bek.JprqConfig.{Resolver}
use jprq_bek.Controller.Run.{Env, Call, patched}
use jprq_bek.Controller.Calls.{PodWrite, pod_writes}
use jprq_bek.Controller.Reconcile.{reconcile_request}

-- The tunnels that the API server holds, by their names; the operator's resolver; and the pods that the
-- operator has written so far, each with the tunnel that it was written for.
pub record Cluster : Type 0 where
  pub tunnels : String → Option JprqTunnel
  pub resolver : Resolver
  pub log : List (String × PodWrite)

-- The answer to a Get.
abbrev pub answer_of : Option JprqTunnel → Fetched JprqTunnel
answer_of none = missing
answer_of (some tunnel) = found tunnel

-- The tunnel after the status patches among the calls, as far as they are accepted.
abbrev pub patched_by : Env → List Call → JprqTunnel → JprqTunnel
patched_by env [] tunnel = tunnel
patched_by env (patched written ∷ calls) tunnel = patched_by env calls (
    if is_some (env.api.patch_status written)
    then tunnel
    else record tunnel { status = written.status })
patched_by env (_ ∷ calls) tunnel = patched_by env calls tunnel

abbrev pub patched_all : Env → List Call → Option JprqTunnel → Option JprqTunnel
patched_all env calls none = none
patched_all env calls (some tunnel) = some (patched_by env calls tunnel)

-- The cluster after a request for the tunnel of this name.
abbrev pub requested : Env → String → Cluster → Cluster
requested env name c =
    let (outcome, resolver, calls) = reconcile_request env name c.resolver in
    record {
      tunnels = λ n. if n == name then patched_all env calls (c.tunnels n) else c.tunnels n;
      resolver = resolver;
      log = c.log ++ map (λ w. (name, w)) (pod_writes calls);
    }

-- A tunnel has the name under which it is held.
abbrev pub Named : (String → Option JprqTunnel) → Type 0
Named tunnels = (n : String) (t : JprqTunnel) → tunnels n ≡ some t → t.name ≡ n

-- The API server gives the pod that it is asked for.
abbrev pub GivesPods : Env → Type 0
GivesPods env =
    (namespace name : String) (pod : Pod)
    → env.api.get_pod namespace name ≡ found pod
    → (pod.name ≡ name) × (pod.namespace ≡ namespace)

-- What may happen: a request, in a world that answers it with the tunnel that is held or refuses to; any
-- change to the tunnels; a restart of the operator. All else that changes is what the world answers.
pub data Step (namespace : String) : Cluster → Cluster → Type 0 where
  request :
      (c : Cluster) (env : Env) (name : String)
      → env.operator_namespace ≡ namespace
      → GivesPods env
      → ((env.api.get_tunnel name ≡ answer_of (c.tunnels name))
          ⊎ ((e : String) × (env.api.get_tunnel name ≡ refused e)))
      → Step namespace c (requested env name c)
  changed :
      (c : Cluster) (tunnels : String → Option JprqTunnel)
      → Named tunnels
      → Step namespace c (record c { tunnels = tunnels })
  restarted :
      (c : Cluster) (resolver : Resolver) → Step namespace c (record c { resolver = resolver })

pub data Reach (namespace : String) (c : Cluster) : Cluster → Type 0 where
  here : Reach namespace c c
  next : {d e : Cluster} → Reach namespace c d → Step namespace d e → Reach namespace c e
