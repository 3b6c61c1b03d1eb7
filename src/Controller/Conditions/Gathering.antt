-- ===== src/Controller/Conditions/Gathering.antt =====
-- internal/controller/jprqtunnel_controller.go, `checkToken` and `checkBackend`: the conditions that they
-- set.
use jprq_bek.Base.{
  ◌≡◌, ap, refl, Bool, true, false, Option, none, some, List, ℕ, ℤ, String, Result, ok, err,
  trim_space, is_nil, lookup,
}
use jprq_bek.Api.{JprqTunnel, BackendRef, SecretKeyRef, token_ready, backend_ready}
use jprq_bek.Kube.{Secret, Service, EndpointSlice, Fetched, found, missing, refused}
use jprq_bek.Controller.Run.{Env, Run, call, got_secret, got_service, listed_slices}
use jprq_bek.Controller.Gate.{Gate}
use jprq_bek.Controller.Token.{secret_key_of, check_value, check_secret, check_token}
use jprq_bek.Controller.Backend.{
  BackendInfo, resolve_service_port, any_ready, slices_answer, has_ready_endpoint, report_endpoints,
  check_endpoints, check_port, check_service, check_backend,
}
use jprq_bek.Controller.Backend.Evidence.{HasBackend}
use jprq_bek.Controller.Settle.{Facts}
use jprq_bek.Controller.Reconcile.Known.{check_backend-Yields}
use jprq_bek.Controller.Reconcile.{agent_pod, observe_pod, gather}
use jprq_bek.Controller.Conditions.{KeepsConditions}
use jprq_bek.Controller.Conditions.Told.{
  Done-both, Done-each, Done-mono, Ends-Done, Tells, Tells-set, Tells-kept, Done, Done-any, Done-if,
  Done-continue,
}

module _ (env : Env) (tunnel : JprqTunnel)
    (keeps : KeepsConditions env.ext.set_status_condition) where
  -- What the conditions say when everything has been read.
  pub record Read (f : Facts) (s : Run) : Type 0 where
    pub token : Tells s.status.conditions token_ready f.token_gate.passed
    pub backend : Tells s.status.conditions backend_ready f.backend_gate.passed
    pub backend_found : (b : BackendInfo) → HasBackend env tunnel b → f.backend_gate.passed ≡ true

  abbrev TokenTold : List ℕ × Gate → Run → Type 0
  TokenTold r s = Tells s.status.conditions token_ready r.1.passed

  abbrev BackendTold : Bool → BackendInfo × Gate → Run → Type 0
  BackendTold b r s =
      Tells s.status.conditions token_ready b × Tells s.status.conditions backend_ready r.1.passed

  check_value-Done :
      (name key : String) (value : Option (List ℕ)) (s : Run)
      → Done TokenTold (check_value env name key value s)
  unfolding check_value
  check_value-Done name key none s = record { holds = Tells-set _ keeps _ _ false refl }
  check_value-Done name key (some token) s =
      Done-if (is_nil (trim_space token)) _ _ s
        (λ blank. record { holds = Tells-set _ keeps _ _ false refl })
        (λ full. record { holds = Tells-set _ keeps _ _ true refl })

  check_secret-Done :
      (ref : SecretKeyRef) (answer : Fetched Secret) (s : Run)
      → Done TokenTold (check_secret env ref answer s)
  unfolding check_secret
  check_secret-Done ref (refused e) s = record { holds = tt }
  check_secret-Done ref missing s = record { holds = Tells-set _ keeps _ _ false refl }
  check_secret-Done ref (found secret) s =
      check_value-Done ref.name (secret_key_of ref) (lookup (secret_key_of ref) secret.data_of) s

  check_token-Done : (s : Run) → Done TokenTold (check_token env tunnel s)
  unfolding check_token
  check_token-Done s =
      let ref = tunnel.spec.jprq_token_secret in
      check_secret-Done ref (env.api.get_secret env.operator_namespace ref.name)
        (call (got_secret env.operator_namespace ref.name) s).1

  report_endpoints-Done :
      (ref : BackendRef) (svc : Service) (port : ℤ) (is_serving b : Bool) (s : Run)
      → Tells s.status.conditions token_ready b
      → Done (BackendTold b) (report_endpoints env ref svc port is_serving s)
  unfolding report_endpoints
  report_endpoints-Done ref svc port true b s h = record {
    holds = (Tells-kept _ keeps _ _ token_ready b refl h, Tells-set _ keeps _ _ true refl);
  }
  report_endpoints-Done ref svc port false b s h = record {
    holds = (Tells-kept _ keeps _ _ token_ready b refl h, Tells-set _ keeps _ _ false refl);
  }

  slices-Done :
      (svc : Service) (b : Bool) (s : Run)
      → Tells s.status.conditions token_ready b
      → Done (λ _ s'. Tells s'.status.conditions token_ready b) (has_ready_endpoint env svc s)
  unfolding has_ready_endpoint any_ready
  slices-Done svc b s h = answered (env.api.list_slices svc.namespace svc.name)
    where
      answered :
          (reply : Result (List EndpointSlice))
          → Done
              (λ _ s'. Tells s'.status.conditions token_ready b)
              (slices_answer env svc reply (call (listed_slices svc.namespace svc.name) s).1)
      answered (ok slices) = record { holds = h }
      answered (err e) = record { holds = tt }

  check_port-Done :
      (ref : BackendRef) (svc : Service) (port : Result ℤ) (b : Bool) (s : Run)
      → Tells s.status.conditions token_ready b
      → Done (BackendTold b) (check_port env ref svc port s)
  unfolding check_port check_endpoints
  check_port-Done ref svc (err e) b s h = record {
    holds = (Tells-kept _ keeps _ _ token_ready b refl h, Tells-set _ keeps _ _ false refl);
  }
  check_port-Done ref svc (ok port) b s h =
      Done-continue _ _ (slices-Done svc b s h)
        (λ is_serving s' h'. report_endpoints-Done ref svc port is_serving b s' h')

  check_service-Done :
      (ref : BackendRef) (answer : Fetched Service) (b : Bool) (s : Run)
      → Tells s.status.conditions token_ready b
      → Done (BackendTold b) (check_service env ref answer s)
  unfolding check_service
  check_service-Done ref (refused e) b s h = record { holds = tt }
  check_service-Done ref missing b s h = record {
    holds = (Tells-kept _ keeps _ _ token_ready b refl h, Tells-set _ keeps _ _ false refl);
  }
  check_service-Done ref (found svc) b s h =
      check_port-Done ref svc (resolve_service_port env.ext svc ref.port) b s h

  check_backend-Done :
      (b : Bool) (s : Run)
      → Tells s.status.conditions token_ready b
      → Done (BackendTold b) (check_backend env tunnel s)
  unfolding check_backend
  check_backend-Done b s h =
      let ref = tunnel.spec.backend in
      check_service-Done ref (env.api.get_service ref.namespace ref.service_name) b
        (call (got_service ref.namespace ref.service_name) s).1 h

  -- Where there is a backend, the gate opens.
  backend_found-Done :
      (s : Run)
      → Done
          (λ r s'. (b : BackendInfo) → HasBackend env tunnel b → r.1.passed ≡ true)
          (check_backend env tunnel s)
  backend_found-Done s = Done-each (HasBackend env tunnel) _ λ b h.
      Done-mono _ (λ r s' e. ap (λ x. x.1.passed) e.0)
        (Ends-Done _ (check_backend-Yields env tunnel b s h))

  pub gather-Read : (s : Run) → Done Read (gather env tunnel s)
  unfolding gather
  gather-Read s = Done-continue _ _ (Done-any (agent_pod env tunnel _)) λ existing s₁ _.
      Done-continue _ _ (Done-any (observe_pod env existing s₁)) λ _ s₂ _.
        Done-continue _ _ (check_token-Done s₂) λ token s₃ told.
          Done-continue _ _
            (Done-both _ (check_backend-Done token.1.passed s₃ told) (backend_found-Done s₃))
            λ backend s₄ both. record {
              holds = record { token = both.0.0; backend = both.0.1; backend_found = both.1 };
            }
