-- ===== src/Controller/Steady/Reading.antt =====
-- internal/controller/jprqtunnel_controller.go, the reading half of `reconcile`.
use jprq_bek.Base.{
  ℕ, String, ◌≡◌, refl, Bool, true, false, List, [], ◌∷◌, Option, none, some, Result, ok, err, ℤ,
  trim_space, is_nil, lookup, arith,
}
use jprq_bek.Api.{JprqTunnel, BackendRef, cond_true, cond_false, token_ready, backend_ready}
use jprq_bek.Kube.{
  HttpAnswer, Pod, Secret, Service, EndpointSlice, ContainerStatus, Fetched, found, missing,
  refused,
}
use jprq_bek.Controller.Classify.{agent_status}
use jprq_bek.Controller.Pods.{pod_name}
use jprq_bek.Controller.Conditions.{SetCondition, condition}
use jprq_bek.Controller.Reconcile.Report.{assigned_start}
use jprq_bek.Controller.Run.{
  Env, Run, done, error, ◌>>=◌, ◌>>◌, pure, call, update_status, got_pod, got_secret, got_service,
  listed_slices,
}
use jprq_bek.Controller.Gate.{Gate}
use jprq_bek.Controller.Token.{check_token, check_secret, check_value, secret_key_of}
use jprq_bek.Controller.Backend.{
  any_ready, backend_info, slices_answer, check_backend, check_service, check_port, check_endpoints,
  has_ready_endpoint, report_endpoints, resolve_service_port,
}
use jprq_bek.Controller.Settle.{Facts}
use jprq_bek.Controller.Reconcile.{pod_answer, agent_pod, observe_pod, record_restarts, gather}
use jprq_bek.Controller.Steady.Writes.{to_pod_name, to_restart_count, to_condition}
use jprq_bek.Controller.Steady.Uniform.{leaf, asked, Uniform-if, at_time, Timed, Uniform}
use jprq_bek.Controller.Steady.Sequence.{Uniform-bind}

module _ (env : Env) (tunnel : JprqTunnel) (assigned : String) (get : String → HttpAnswer)
    (answer : Result String) where
  abbrev pub Steps : {A : Type 0} → ℕ → ℕ → Timed A → Type 0
  Steps low high m = Uniform assigned get answer low high m

  pod_answer-Uniform :
      (name : String) (reply : Fetched Pod)
      → Steps 1 1 (λ set. pod_answer (at_time env set) name reply)
  unfolding pod_answer
  pod_answer-Uniform name (found pod) =
      leaf assigned get answer (done (some pod)) [] (omega arith) (λ _ _. refl)
  pod_answer-Uniform name missing =
      leaf assigned get answer (done none) [] (omega arith) (λ _ _. refl)
  pod_answer-Uniform name (refused e) =
      leaf assigned get answer (error _) [] (omega arith) (λ _ _. refl)

  agent_pod-Uniform : Steps 1 1 (λ set. agent_pod (at_time env set) tunnel)
  unfolding agent_pod
  agent_pod-Uniform =
      Uniform-bind assigned get answer 1 1 1
        (λ set. call (got_pod env.operator_namespace (pod_name tunnel.name)))
        (λ set _.
          pod_answer (at_time env set) (pod_name tunnel.name)
            (env.api.get_pod env.operator_namespace (pod_name tunnel.name)))
        (omega arith) (asked assigned get answer _ (omega arith) refl)
        (λ _.
          pod_answer-Uniform (pod_name tunnel.name)
            (env.api.get_pod env.operator_namespace (pod_name tunnel.name)))

  record_restarts-Uniform :
      (ocs : Option ContainerStatus) → Steps 2 3 (λ set. record_restarts (at_time env set) ocs)
  record_restarts-Uniform none = leaf assigned get answer (done tt) [] (omega arith) (λ _ _. refl)
  record_restarts-Uniform (some cs) =
      leaf assigned get answer (done tt) (to_restart_count cs.restart_count ∷ []) (omega arith)
        (λ _ _. refl)

  observe_pod-Uniform :
      (existing : Option Pod) → Steps 1 3 (λ set. observe_pod (at_time env set) existing)
  unfolding observe_pod
  observe_pod-Uniform none =
      leaf assigned get answer (done tt) (to_pod_name "" ∷ []) (omega arith) (λ _ _. refl)
  observe_pod-Uniform (some pod) =
      Uniform-bind assigned get answer 1 2 3
        (λ set. update_status λ st. record st { pod_name = pod.name })
        (λ set _. record_restarts (at_time env set) (agent_status pod)) (omega arith)
        (leaf assigned get answer (done tt) (to_pod_name pod.name ∷ []) (omega arith) (λ _ _. refl))
        (λ _. record_restarts-Uniform (agent_status pod))

  check_value-Uniform :
      (name secret_key : String) (value : Option (List ℕ))
      → Steps 3 4 (λ set. check_value (at_time env set) name secret_key value)
  unfolding check_value
  check_value-Uniform name secret_key none =
      leaf assigned get answer (done _) (to_condition (condition token_ready cond_false _ _) ∷ [])
        (omega arith) (λ _ _. refl)
  check_value-Uniform name secret_key (some token) =
      Uniform-if assigned get answer 3 4 _ _ (is_nil (trim_space token))
        (leaf assigned get answer (done _)
          (to_condition (condition token_ready cond_false _ _) ∷ []) (omega arith) (λ _ _. refl))
        (leaf assigned get answer (done _) (to_condition (condition token_ready cond_true _ _) ∷ [])
          (omega arith) (λ _ _. refl))

  check_secret-Uniform :
      (reply : Fetched Secret)
      → Steps 3 4 (λ set. check_secret (at_time env set) tunnel.spec.jprq_token_secret reply)
  unfolding check_secret
  check_secret-Uniform (refused e) =
      leaf assigned get answer (error _) [] (omega arith) (λ _ _. refl)
  check_secret-Uniform missing =
      leaf assigned get answer (done _) (to_condition (condition token_ready cond_false _ _) ∷ [])
        (omega arith) (λ _ _. refl)
  check_secret-Uniform (found secret) =
      check_value-Uniform tunnel.spec.jprq_token_secret.name
        (secret_key_of tunnel.spec.jprq_token_secret)
        (lookup (secret_key_of tunnel.spec.jprq_token_secret) secret.data_of)

  check_token-Uniform : Steps 3 4 (λ set. check_token (at_time env set) tunnel)
  unfolding check_token
  check_token-Uniform =
      let ref = tunnel.spec.jprq_token_secret in
      Uniform-bind assigned get answer 3 3 4
        (λ set. call (got_secret env.operator_namespace ref.name))
        (λ set _.
          check_secret (at_time env set) ref (env.api.get_secret env.operator_namespace ref.name))
        (omega arith) (asked assigned get answer _ (omega arith) refl)
        (λ _. check_secret-Uniform (env.api.get_secret env.operator_namespace ref.name))

  report_endpoints-Uniform :
      (ref : BackendRef) (svc : Service) (port : ℤ) (is_serving : Bool)
      → Steps 4 5 (λ set. report_endpoints (at_time env set) ref svc port is_serving)
  unfolding report_endpoints backend_info
  report_endpoints-Uniform ref svc port true =
      leaf assigned get answer (done _) (to_condition (condition backend_ready cond_true _ _) ∷ [])
        (omega arith) (λ _ _. refl)
  report_endpoints-Uniform ref svc port false =
      leaf assigned get answer (done _) (to_condition (condition backend_ready cond_false _ _) ∷ [])
        (omega arith) (λ _ _. refl)

  slices_answer-Uniform :
      (svc : Service) (reply : Result (List EndpointSlice))
      → Steps 4 4 (λ set. slices_answer (at_time env set) svc reply)
  unfolding any_ready
  slices_answer-Uniform svc (ok slices) =
      leaf assigned get answer (done _) [] (omega arith) (λ _ _. refl)
  slices_answer-Uniform svc (err e) =
      leaf assigned get answer (error _) [] (omega arith) (λ _ _. refl)

  check_endpoints-Uniform :
      (ref : BackendRef) (svc : Service) (port : ℤ)
      → Steps 4 5 (λ set. check_endpoints (at_time env set) ref svc port)
  unfolding check_endpoints has_ready_endpoint any_ready
  check_endpoints-Uniform ref svc port =
      Uniform-bind assigned get answer 4 4 5 (λ set. has_ready_endpoint (at_time env set) svc)
        (λ set is_serving. report_endpoints (at_time env set) ref svc port is_serving) (omega arith)
        (Uniform-bind assigned get answer 4 4 4 (λ set. call (listed_slices svc.namespace svc.name))
          (λ set _.
            slices_answer (at_time env set) svc (env.api.list_slices svc.namespace svc.name))
          (omega arith) (asked assigned get answer _ (omega arith) refl)
          (λ _. slices_answer-Uniform svc (env.api.list_slices svc.namespace svc.name)))
        (report_endpoints-Uniform ref svc port)

  check_port-Uniform :
      (ref : BackendRef) (svc : Service) (port : Result ℤ)
      → Steps 4 5 (λ set. check_port (at_time env set) ref svc port)
  unfolding check_port
  check_port-Uniform ref svc (err e) =
      leaf assigned get answer (done _) (to_condition (condition backend_ready cond_false _ _) ∷ [])
        (omega arith) (λ _ _. refl)
  check_port-Uniform ref svc (ok port) = check_endpoints-Uniform ref svc port

  check_service-Uniform :
      (ref : BackendRef) (reply : Fetched Service)
      → Steps 4 5 (λ set. check_service (at_time env set) ref reply)
  unfolding check_service
  check_service-Uniform ref (refused e) =
      leaf assigned get answer (error _) [] (omega arith) (λ _ _. refl)
  check_service-Uniform ref missing =
      leaf assigned get answer (done _) (to_condition (condition backend_ready cond_false _ _) ∷ [])
        (omega arith) (λ _ _. refl)
  check_service-Uniform ref (found svc) =
      check_port-Uniform ref svc (resolve_service_port env.ext svc ref.port)

  check_backend-Uniform : Steps 4 5 (λ set. check_backend (at_time env set) tunnel)
  unfolding check_backend
  check_backend-Uniform =
      let ref = tunnel.spec.backend in
      Uniform-bind assigned get answer 4 4 5
        (λ set. call (got_service ref.namespace ref.service_name))
        (λ set _.
          check_service (at_time env set) ref (env.api.get_service ref.namespace ref.service_name))
        (omega arith) (asked assigned get answer _ (omega arith) refl)
        (λ _. check_service-Uniform ref (env.api.get_service ref.namespace ref.service_name))

  -- The steps of `gather` behind the assignment of the subdomain.
  abbrev read_backend : Option Pod → List ℕ → Gate → Timed Facts
  read_backend existing token token_gate set = do
    (backend, backend_gate) ← check_backend (at_time env set) tunnel
    pure (record {
      existing = existing;
      token = token;
      token_gate = token_gate;
      backend = backend;
      backend_gate = backend_gate;
    })

  abbrev read_token : Option Pod → Timed Facts
  read_token existing set = do
    (token, token_gate) ← check_token (at_time env set) tunnel
    read_backend existing token token_gate set

  abbrev read_pod : Option Pod → Timed Facts
  read_pod existing set = do observe_pod (at_time env set) existing; read_token existing set

  abbrev pub read_all : Timed Facts
  read_all set = do existing ← agent_pod (at_time env set) tunnel; read_pod existing set

  -- Whatever it finds, `gather` does so whatever the status and the time, and writes to five fields.
  pub read_all-Uniform : Steps 1 5 read_all
  read_all-Uniform =
      Uniform-bind assigned get answer 1 1 5 (λ set. agent_pod (at_time env set) tunnel)
        (λ set existing. read_pod existing set) (omega arith) agent_pod-Uniform
        (λ existing.
          Uniform-bind assigned get answer 1 3 5 (λ set. observe_pod (at_time env set) existing)
            (λ set _. read_token existing set) (omega arith) (observe_pod-Uniform existing)
            (λ _.
              Uniform-bind assigned get answer 3 4 5 (λ set. check_token (at_time env set) tunnel)
                (λ set r. read_backend existing r.0 r.1 set) (omega arith) check_token-Uniform
                (λ r.
                  Uniform-bind assigned get answer 4 5 5
                    (λ set. check_backend (at_time env set) tunnel)
                    (λ set q. pure (record {
                      existing = existing;
                      token = r.0;
                      token_gate = r.1;
                      backend = q.0;
                      backend_gate = q.1;
                    }))
                    (omega arith) check_backend-Uniform
                    (λ q. leaf assigned get answer (done _) [] (omega arith) (λ _ _. refl)))))

  -- `gather`, in terms of these steps.
  pub gather-read_all :
      (set : SetCondition) (s : Run)
      → gather (at_time env set) tunnel s ≡ read_all set (assigned_start env tunnel s)
  unfolding gather
  gather-read_all set s = refl
