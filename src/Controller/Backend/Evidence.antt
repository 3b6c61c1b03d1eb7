-- ===== src/Controller/Backend/Evidence.antt =====
-- internal/controller/jprqtunnel_controller.go, `checkBackend`: what an open gate says of the Service.
use jprq_bek.Base.{◌≡◌, Bool, true, false, List, ℤ, refl, Result, ok, err}
use jprq_bek.Api.{JprqTunnel, BackendRef}
use jprq_bek.Kube.{Service, EndpointSlice, Fetched, found, missing, refused}
use jprq_bek.Controller.Run.{Env, Run, got_service, listed_slices}
use jprq_bek.Controller.Ends.{Ends, Ends-continue}
use jprq_bek.Controller.Calls.{Reads, Reads-kept, Reads-one}
use jprq_bek.Controller.Gate.{Gate}
use jprq_bek.Controller.Backend.{
  BackendInfo, resolve_service_port, any_ready, backend_info, slices_answer, has_ready_endpoint,
  report_endpoints, check_endpoints, check_port, check_service, check_backend,
}

module _ (env : Env) (tunnel : JprqTunnel) where
  abbrev ref : BackendRef
  ref = tunnel.spec.backend

  -- The Service exists, declares the tunnel's port, and has a ready endpoint.
  pub record HasBackend (backend : BackendInfo) : Type 0 where
    pub svc : Service
    pub port : ℤ
    pub slices : List EndpointSlice
    pub read : env.api.get_service ref.namespace ref.service_name ≡ found svc
    pub resolved : resolve_service_port env.ext svc ref.port ≡ ok port
    pub listed : env.api.list_slices svc.namespace svc.name ≡ ok slices
    pub serving : any_ready slices ≡ true
    pub info : backend ≡ backend_info env svc port

  pub record BackendChecked (s₀ : Run) (r : BackendInfo × Gate) (s : Run) : Type 0 where
    pub evidence : r.1.passed ≡ true → HasBackend r.0
    pub reads : Reads env s₀ s

  -- The endpoints of the Service were listed, with this result.
  record Listed (svc : Service) (s₀ : Run) (is_serving : Bool) (s : Run) : Type 0 where
    slices : List EndpointSlice
    listed : env.api.list_slices svc.namespace svc.name ≡ ok slices
    serving : any_ready slices ≡ is_serving
    reads : Reads env s₀ s

  slices_answer-Ends :
      (svc : Service) (answer : Result (List EndpointSlice)) (s₀ s : Run)
      → Reads env s₀ s
      → env.api.list_slices svc.namespace svc.name ≡ answer
      → Ends (Listed svc s₀) (Reads env s₀) (slices_answer env svc answer s)
  unfolding slices_answer
  slices_answer-Ends svc (ok slices) s₀ s q h = record {
    holds = record { slices = slices; listed = h; serving = refl; reads = q };
  }
  slices_answer-Ends svc (err e) s₀ s q h = record { holds = q }

  report_endpoints-Ends :
      (svc : Service) (port : ℤ) (s₀ : Run) (is_serving : Bool) (s : Run)
      → env.api.get_service ref.namespace ref.service_name ≡ found svc
      → resolve_service_port env.ext svc ref.port ≡ ok port
      → Listed svc s₀ is_serving s
      → Ends (BackendChecked s₀) (Reads env s₀) (report_endpoints env ref svc port is_serving s)
  unfolding report_endpoints
  report_endpoints-Ends svc port s₀ true s read resolved l = record {
    holds = record {
      evidence = λ _. record {
        svc = svc;
        port = port;
        slices = l.slices;
        read = read;
        resolved = resolved;
        listed = l.listed;
        serving = l.serving;
        info = refl;
      };
      reads = Reads-kept l.reads refl refl;
    };
  }
  report_endpoints-Ends svc port s₀ false s read resolved l = record {
    holds = record { evidence = λ e. cc; reads = Reads-kept l.reads refl refl };
  }

  check_endpoints-Ends :
      (svc : Service) (port : ℤ) (s₀ s : Run)
      → Reads env s₀ s
      → env.api.get_service ref.namespace ref.service_name ≡ found svc
      → resolve_service_port env.ext svc ref.port ≡ ok port
      → Ends (BackendChecked s₀) (Reads env s₀) (check_endpoints env ref svc port s)
  unfolding check_endpoints has_ready_endpoint
  check_endpoints-Ends svc port s₀ s q read resolved =
      Ends-continue _ _
        (slices_answer-Ends svc _ s₀ _
          (Reads-one (listed_slices svc.namespace svc.name) q tt refl refl) refl)
        (λ is_serving s' l. report_endpoints-Ends svc port s₀ is_serving s' read resolved l)

  check_port-Ends :
      (svc : Service) (port : Result ℤ) (s₀ s : Run)
      → Reads env s₀ s
      → env.api.get_service ref.namespace ref.service_name ≡ found svc
      → resolve_service_port env.ext svc ref.port ≡ port
      → Ends (BackendChecked s₀) (Reads env s₀) (check_port env ref svc port s)
  unfolding check_port
  check_port-Ends svc (ok port) s₀ s q read resolved =
      check_endpoints-Ends svc port s₀ s q read resolved
  check_port-Ends svc (err e) s₀ s q read resolved = record {
    holds = record { evidence = λ e. cc; reads = Reads-kept q refl refl };
  }

  check_service-Ends :
      (answer : Fetched Service) (s₀ s : Run)
      → Reads env s₀ s
      → env.api.get_service ref.namespace ref.service_name ≡ answer
      → Ends (BackendChecked s₀) (Reads env s₀) (check_service env ref answer s)
  unfolding check_service
  check_service-Ends (refused e) s₀ s q h = record { holds = q }
  check_service-Ends missing s₀ s q h = record {
    holds = record { evidence = λ e. cc; reads = Reads-kept q refl refl };
  }
  check_service-Ends (found svc) s₀ s q h = check_port-Ends svc _ s₀ s q h refl

  -- The gate opens only for a Service that declares the port and has a ready endpoint, and hands over
  -- its address.
  pub check_backend-Ends :
      (s₀ s : Run)
      → Reads env s₀ s
      → Ends (BackendChecked s₀) (Reads env s₀) (check_backend env tunnel s)
  unfolding check_backend
  check_backend-Ends s₀ s q =
      check_service-Ends _ s₀ _
        (Reads-one (got_service ref.namespace ref.service_name) q tt refl refl) refl
