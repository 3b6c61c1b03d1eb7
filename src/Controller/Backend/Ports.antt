-- ===== src/Controller/Backend/Ports.antt =====
-- internal/controller/jprqtunnel_controller.go, `resolveServicePort` and `hasReadyEndpoint`: against
-- what they are meant to find.
use mathlib.Core.List.{Memᴰ}
use jprq_bek.Base.{
  ◌≡◌, ◌≢◌, inl, inr, refl, String, Bool-cases, true, false, List, [], ◌∷◌, none, some, ℤ, arith,
  =ℤ=-iff, ◌=ℤ=◌, ◌==◌, eq_iff, All, Result, ok, err, ◌↔◌,
}
use jprq_bek.Base.Search.{any_found, any_of_mem}
use jprq_bek.Api.{IntOrString, int_val, str_val}
use jprq_bek.Kube.{External, Service, ServicePort, Endpoint, EndpointSlice}
use jprq_bek.Controller.Backend.{
  port_numbered, port_named, resolve_service_port, is_ready_endpoint, any_ready,
}

-- The port that a tunnel asks for, by number or by name.
abbrev pub Wanted : IntOrString → ServicePort → Type 0
Wanted (int_val n) p = p.port ≡ n
Wanted (str_val name) p = p.name ≡ name

-- The number is that of a port which the Service declares and the tunnel asks for.
pub record Declared (want : IntOrString) (ports : List ServicePort) (port : ℤ) : Type 0 where
  pub entry : ServicePort
  pub listed : Memᴰ entry ports
  pub wanted : Wanted want entry
  pub number : port ≡ entry.port

later :
    {want : IntOrString} {ports : List ServicePort} {port : ℤ} (p : ServicePort)
    → Declared want ports port
    → Declared want (p ∷ ports) port
later p d = record {
  entry = d.entry;
  listed = Memᴰ.tail d.listed;
  wanted = d.wanted;
  number = d.number;
}

port_numbered_sound :
    (n : ℤ) (ports : List ServicePort) (port : ℤ)
    → port_numbered n ports ≡ some port
    → Declared (int_val n) ports port
unfolding port_numbered
port_numbered_sound n [] port h = absurd (ground arith)
port_numbered_sound n (p ∷ ports) port h = elim (Bool-cases (p.port =ℤ= n)) [
  | inl same ↦ record {
    entry = p;
    listed = Memᴰ.head refl;
    wanted = (=ℤ=-iff _ _).0 same;
    number = ground arith;
  }
  | inr other ↦ later p (port_numbered_sound n ports port (ground arith))
]

port_named_sound :
    (name : String) (ports : List ServicePort) (port : ℤ)
    → port_named name ports ≡ some port
    → Declared (str_val name) ports port
unfolding port_named
port_named_sound name [] port h = absurd (ground arith)
port_named_sound name (p ∷ ports) port h = elim (Bool-cases (p.name == name)) [
  | inl same ↦ record {
    entry = p;
    listed = Memᴰ.head refl;
    wanted = (eq_iff _ _).0 same;
    number = ground arith;
  }
  | inr other ↦ later p (port_named_sound name ports port (ground arith))
]

port_numbered-none :
    (n : ℤ) (ports : List ServicePort) → port_numbered n ports ≡ none → All (λ p. p.port ≢ n) ports
unfolding port_numbered
port_numbered-none n [] h = tt
port_numbered-none n (p ∷ ports) h = (
  ground (arith, =ℤ=-iff p.port n),
  port_numbered-none n ports (ground (arith, =ℤ=-iff p.port n)),
)

port_named-none :
    (name : String) (ports : List ServicePort)
    → port_named name ports ≡ none
    → All (λ p. p.name ≢ name) ports
unfolding port_named
port_named-none name [] h = tt
port_named-none name (p ∷ ports) h = (
  ground (arith, eq_iff p.name name),
  port_named-none name ports (ground (arith, eq_iff p.name name)),
)

abbrev pub Unwanted : IntOrString → ServicePort → Type 0
Unwanted (int_val n) p = p.port ≢ n
Unwanted (str_val name) p = p.name ≢ name

resolve_service_port_refused :
    (ext : External) (svc : Service) (want : IntOrString) (e : String)
    → resolve_service_port ext svc want ≡ err e
    → All (Unwanted want) svc.ports
unfolding resolve_service_port
resolve_service_port_refused ext svc (int_val n) e h = port_numbered-none n svc.ports (ground arith)
resolve_service_port_refused ext svc (str_val name) e h =
    port_named-none name svc.ports (ground arith)

resolve_service_port_sound :
    (ext : External) (svc : Service) (want : IntOrString) (port : ℤ)
    → resolve_service_port ext svc want ≡ ok port
    → Declared want svc.ports port
unfolding resolve_service_port
resolve_service_port_sound ext svc (int_val n) port h =
    port_numbered_sound n svc.ports port (ground arith)
resolve_service_port_sound ext svc (str_val name) port h =
    port_named_sound name svc.ports port (ground arith)

-- What an answer of `resolveServicePort` says of the ports.
abbrev pub PortAnswer : IntOrString → List ServicePort → Result ℤ → Type 0
PortAnswer want ports (ok port) = Declared want ports port
PortAnswer want ports (err e) = All (Unwanted want) ports

PortAnswer-of :
    (want : IntOrString) (ports : List ServicePort) (answer : Result ℤ)
    → ((port : ℤ) → answer ≡ ok port → Declared want ports port)
    → ((e : String) → answer ≡ err e → All (Unwanted want) ports)
    → PortAnswer want ports answer
PortAnswer-of want ports (ok port) h k = h port refl
PortAnswer-of want ports (err e) h k = k e refl

-- For every Service and every wanted port, number or name: a port that is resolved is declared by the
-- Service and is the wanted one; and an error means that the Service declares no such port.
pub resolve_service_port_exact :
    (ext : External) (svc : Service) (want : IntOrString)
    → PortAnswer want svc.ports (resolve_service_port ext svc want)
resolve_service_port_exact ext svc want =
    PortAnswer-of want svc.ports _ (resolve_service_port_sound ext svc want)
      (resolve_service_port_refused ext svc want)

-- An endpoint whose readiness is not false: nil means ready.
pub record ReadyEndpoint (slices : List EndpointSlice) : Type 0 where
  pub slice : EndpointSlice
  pub endpoint : Endpoint
  pub in_slices : Memᴰ slice slices
  pub in_slice : Memᴰ endpoint slice.endpoints
  pub not_unready : endpoint.ready ≢ some false

ready_of_test :
    (endpoint : Endpoint) → is_ready_endpoint endpoint ≡ true → endpoint.ready ≢ some false
ready_of_test endpoint h e = ground arith

test_of_ready :
    (endpoint : Endpoint) → endpoint.ready ≢ some false → is_ready_endpoint endpoint ≡ true
test_of_ready endpoint h = ground arith

any_ready_sound : (slices : List EndpointSlice) → any_ready slices ≡ true → ReadyEndpoint slices
unfolding any_ready
any_ready_sound slices h =
    let (slice, m, t) = any_found _ slices h in
    let (endpoint, n, r) = any_found _ slice.endpoints t in
    record {
      slice = slice;
      endpoint = endpoint;
      in_slices = m;
      in_slice = n;
      not_unready = ready_of_test endpoint r;
    }

any_ready_complete : (slices : List EndpointSlice) → ReadyEndpoint slices → any_ready slices ≡ true
unfolding any_ready
any_ready_complete slices r =
    any_of_mem _ r.in_slices (any_of_mem _ r.in_slice (test_of_ready r.endpoint r.not_unready))

-- The backend has a ready endpoint exactly when some slice has an endpoint whose readiness is nil or true.
pub any_ready_iff : (slices : List EndpointSlice) → (any_ready slices ≡ true) ↔ ReadyEndpoint slices
any_ready_iff slices = (any_ready_sound slices, any_ready_complete slices)
