-- ===== src/Controller/Backend.antt =====
-- internal/controller/jprqtunnel_controller.go, `checkBackend`: the backend Service, its port and its
-- endpoints.
pub mod Evidence
pub mod Ports
use jprq_bek.Base.{
  String, Bool, true, List, [], ◌∷◌, Option, none, some, ◌<>◌, ◌==◌, ◌=ℤ=◌, ℤ, pos, itoa_int,
  if◌then◌else◌, any, Result, ok, err,
}
use jprq_bek.Api.{
  JprqTunnel, BackendRef, IntOrString, int_val, str_val, Reason, backend_ready, cond_true,
  service_not_found, port_not_resolvable, no_ready_endpoints, endpoints_ready,
}
use jprq_bek.Kube.{
  External, Service, ServicePort, Endpoint, EndpointSlice, Fetched, found, missing, refused,
}
use jprq_bek.Controller.Run.{
  Env, M, pure, fail, ◌>>=◌, ◌>>◌, call, got_service, listed_slices, set_condition,
}
use jprq_bek.Controller.Gate.{Gate, open_gate, fail_gate}

pub record BackendInfo : Type 0 where
  pub host : String
  pub port : ℤ
  pub address : String

-- `backendInfo{}`
abbrev pub no_backend : BackendInfo
no_backend = record { host = ""; port = pos 0; address = "" }

-- The loops of `resolveServicePort`.
unfoldable pub port_numbered : ℤ → List ServicePort → Option ℤ
port_numbered wanted [] = none
port_numbered wanted (p ∷ ports) =
    if p.port =ℤ= wanted then some p.port else port_numbered wanted ports

unfoldable pub port_named : String → List ServicePort → Option ℤ
port_named name [] = none
port_named name (p ∷ ports) = if p.name == name then some p.port else port_named name ports

abbrev or_error : Option ℤ → String → Result ℤ
or_error (some port) e = ok port
or_error none e = err e

-- `resolveServicePort`
unfoldable pub resolve_service_port : External → Service → IntOrString → Result ℤ
unfolding port_numbered port_named itoa_int
resolve_service_port ext svc (int_val wanted) = or_error (port_numbered wanted svc.ports) (
    "port "
    <> itoa_int wanted
    <> " is not declared by Service "
    <> svc.namespace
    <> "/"
    <> svc.name)
resolve_service_port ext svc (str_val name) = or_error (port_named name svc.ports) (
    "no port named "
    <> ext.quoted name
    <> " is declared by Service "
    <> svc.namespace
    <> "/"
    <> svc.name)

-- A nil `Ready` means ready.
abbrev pub is_ready_endpoint : Endpoint → Bool
is_ready_endpoint endpoint = elim endpoint.ready [ none ↦ true | some value ↦ value ]

-- The loop of `hasReadyEndpoint`.
unfoldable pub any_ready : List EndpointSlice → Bool
any_ready slices = any (λ slice. any is_ready_endpoint slice.endpoints) slices

module _ (env : Env) where
  open env use {ext, api}
  open ext use {namespaced}

  abbrev pub slices_answer : Service → Result (List EndpointSlice) → M Bool
  unfolding any_ready
  slices_answer svc (ok slices) = pure (any_ready slices)
  slices_answer svc (err e) =
      fail ("listing EndpointSlices for Service " <> svc.namespace <> "/" <> svc.name <> ": " <> e)

  -- `hasReadyEndpoint`
  unfoldable pub has_ready_endpoint : Service → M Bool
  unfolding any_ready
  has_ready_endpoint svc = do
    call (listed_slices svc.namespace svc.name)
    slices_answer svc (api.list_slices svc.namespace svc.name)

  abbrev no_backend_because : Reason → String → M (BackendInfo × Gate)
  no_backend_because reason message = do
    pure (no_backend, (← fail_gate ext backend_ready reason message))

  -- The rest of `checkBackend` behind the port: the endpoints and the address.
  unfoldable pub backend_info : Service → ℤ → BackendInfo
  unfolding itoa_int
  backend_info svc port =
      let host = svc.name <> "." <> svc.namespace <> ".svc" in
      record { host = host; port = port; address = host <> ":" <> itoa_int port }

  unfoldable pub report_endpoints : BackendRef → Service → ℤ → Bool → M (BackendInfo × Gate)
  unfolding backend_info
  report_endpoints ref svc port ready =
      let info = backend_info svc port in
      if ready
      then (do
        set_condition ext backend_ready cond_true endpoints_ready ("forwarding to " <> info.address)
        pure (info, open_gate))
      else no_backend_because no_ready_endpoints
          ("Service " <> namespaced ref.namespace ref.service_name <> " has no ready endpoints")

  unfoldable pub check_endpoints : BackendRef → Service → ℤ → M (BackendInfo × Gate)
  unfolding has_ready_endpoint report_endpoints
  check_endpoints ref svc port = do
    ready ← has_ready_endpoint svc
    report_endpoints ref svc port ready

  unfoldable pub check_port : BackendRef → Service → Result ℤ → M (BackendInfo × Gate)
  unfolding check_endpoints
  check_port ref svc (err e) = no_backend_because port_not_resolvable e
  check_port ref svc (ok port) = check_endpoints ref svc port

  unfoldable pub check_service : BackendRef → Fetched Service → M (BackendInfo × Gate)
  unfolding check_port resolve_service_port
  check_service ref (refused e) =
      fail ("reading Service " <> namespaced ref.namespace ref.service_name <> ": " <> e)
  check_service ref missing =
      no_backend_because service_not_found
        ("Service " <> namespaced ref.namespace ref.service_name <> " not found")
  check_service ref (found svc) = check_port ref svc (resolve_service_port ext svc ref.port)

  -- `checkBackend`
  unfoldable pub check_backend : JprqTunnel → M (BackendInfo × Gate)
  unfolding check_service
  check_backend tunnel = do
    let ref = tunnel.spec.backend
    call (got_service ref.namespace ref.service_name)
    check_service ref (api.get_service ref.namespace ref.service_name)
