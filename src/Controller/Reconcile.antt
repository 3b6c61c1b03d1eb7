-- ===== src/Controller/Reconcile.antt =====
-- internal/controller/jprqtunnel_controller.go: `Reconcile`.
pub mod Report
pub mod PodWrites
pub mod Requests
pub mod Refusals
pub mod Cached
pub mod Known
pub mod Converges
pub mod Worlds
use jprq_bek.Base.{
  String, Bool, ◌&&◌, List, [], ◌∷◌, ◌++◌, Option, none, some, ◌<>◌, ◌=ℤ=◌, if◌then◌else◌, is_some,
}
use jprq_bek.Api.{JprqTunnel, JprqTunnelStatus, is_failed}
use jprq_bek.Kube.{Pod, ContainerStatus, Fetched, found, missing, refused}
use jprq_bek.JprqConfig.{Resolver}
use jprq_bek.Controller.Classify.{agent_status}
use jprq_bek.Controller.Pods.{pod_name}
use jprq_bek.Controller.Run.{
  Env, Run, Requeue, M, pure, fail, ◌>>=◌, ◌>>◌, Outcome, done, error, panic, Call, call,
  update_status, got_tunnel, got_pod, patched,
}
use jprq_bek.Controller.Token.{check_token}
use jprq_bek.Controller.Backend.{check_backend}
use jprq_bek.Controller.Actions.{no_requeue}
use jprq_bek.Controller.Settle.{Facts, settle}

module _ (env : Env) where
  open env use {ext, api, operator_namespace}

  unfoldable pub pod_answer : String → Fetched Pod → M (Option Pod)
  pod_answer name (found pod) = pure (some pod)
  pod_answer name missing = pure none
  pod_answer name (refused e) =
      fail ("reading agent pod " <> ext.namespaced operator_namespace name <> ": " <> e)

  -- `agentPod`
  unfoldable pub agent_pod : JprqTunnel → M (Option Pod)
  unfolding pod_answer pod_name
  agent_pod tunnel = do
    call (got_pod operator_namespace (pod_name tunnel.name))
    pod_answer (pod_name tunnel.name) (api.get_pod operator_namespace (pod_name tunnel.name))

  abbrev pub record_restarts : Option ContainerStatus → M (Unit {0})
  record_restarts none = pure tt
  record_restarts (some cs) = update_status λ st. record st { restart_count = cs.restart_count }

  unfoldable pub observe_pod : Option Pod → M (Unit {0})
  observe_pod none = update_status λ st. record st { pod_name = "" }
  observe_pod (some pod) = do
    update_status λ st. record st { pod_name = pod.name }
    record_restarts (agent_status pod)

  -- The first half of `reconcile`.
  unfoldable pub gather : JprqTunnel → M Facts
  unfolding agent_pod observe_pod check_token check_backend
  gather tunnel = do
    update_status λ st. record st { assigned_subdomain = tunnel.spec.subdomain }
    existing ← agent_pod tunnel
    observe_pod existing
    (token, token_gate) ← check_token env tunnel
    (backend, backend_gate) ← check_backend env tunnel
    pure (record {
      existing = existing;
      token = token;
      token_gate = token_gate;
      backend = backend;
      backend_gate = backend_gate;
    })

  -- `reconcile`
  unfoldable pub reconcile : JprqTunnel → M Requeue
  unfolding gather settle
  reconcile tunnel = do f ← gather tunnel; settle env tunnel f

  -- The outcome of a request, the resolver, and the calls that were made.
  abbrev pub Handled : Type 0
  Handled = Outcome Requeue × Resolver × List Call

  -- An error of the patch counts only where there is no other.
  abbrev pub with_patch_error : Outcome Requeue → Option String → Outcome Requeue
  with_patch_error outcome none = outcome
  with_patch_error (done result) (some e) = error e
  with_patch_error (error first) (some e) = error first
  with_patch_error panic (some e) = panic

  -- The status that `patchStatus` compares and writes.
  abbrev pub observed : JprqTunnel → JprqTunnelStatus → JprqTunnelStatus
  observed tunnel st = record st { observed_generation = tunnel.generation }

  -- `patchStatus`, behind an outcome that is no panic.
  unfoldable pub patch_status : JprqTunnel → Outcome Requeue → Run → Handled
  patch_status tunnel outcome s =
      let written = record tunnel { status = observed tunnel s.status } in
      if ext.deep_equal tunnel.status written.status then (outcome, s.resolver, s.calls) else (
        with_patch_error outcome (api.patch_status written),
        s.resolver,
        s.calls ++ patched written ∷ [],
      )

  unfoldable pub finish : JprqTunnel → Outcome Requeue × Run → Handled
  unfolding patch_status
  finish tunnel (panic, s) = (panic, s.resolver, s.calls)
  finish tunnel (done result, s) = patch_status tunnel (done result) s
  finish tunnel (error e, s) = patch_status tunnel (error e) s

  -- Terminal states are sticky.
  abbrev pub is_settled_failure : JprqTunnel → Bool
  is_settled_failure tunnel =
      is_failed tunnel.status.phase && tunnel.status.observed_generation =ℤ= tunnel.generation

  abbrev pub start : String → Resolver → JprqTunnel → Run
  start name resolver tunnel = record {
    status = tunnel.status;
    resolver = resolver;
    calls = got_tunnel name ∷ [];
  }

  unfoldable pub handle : String → Resolver → Fetched JprqTunnel → Handled
  unfolding finish reconcile
  handle name resolver (refused e) = (error e, resolver, got_tunnel name ∷ [])
  handle name resolver missing = (done no_requeue, resolver, got_tunnel name ∷ [])
  handle name resolver (found tunnel) =
      if is_some tunnel.deletion_timestamp
      then (done no_requeue, resolver, got_tunnel name ∷ [])
      else if is_settled_failure tunnel
      then (done no_requeue, resolver, got_tunnel name ∷ [])
      else finish tunnel (reconcile tunnel (start name resolver tunnel))

  -- `Reconcile`, for the tunnel of this name.
  unfoldable pub reconcile_request : String → Resolver → Handled
  unfolding handle
  reconcile_request name resolver = handle name resolver (api.get_tunnel name)
