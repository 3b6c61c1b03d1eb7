-- ===== src/Controller/Watches/Events.antt =====
-- internal/controller/jprqtunnel_controller.go: which tunnels a watch event enqueues.
use mathlib.Core.List.Memᴰ
use mathlib.Core.List.{Memᴰ, map}
use jprq_bek.Base.{
  ◌≡◌, ◌≢◌, ◌↔◌, inl, inr, sym, ap, ◌∙◌, String, ◌==◌, eq_iff, Bool-cases, false, List, [], ◌∷◌,
  some, ok, if◌then◌else◌, lookup, arith, All,
}
use jprq_bek.Api.{JprqTunnel}
use jprq_bek.Controller.Watches.{
  Index, backend_service, token_secret, index_value, service_ref_key, TunnelList, requests_by_index,
  tunnels_for_secret, tunnels_for_service, tunnels_for_endpoint_slice,
}
use jprq_bek.Controller.Watches.Keys.{has_slash, service_ref_key_injective}

-- The tunnels with this value in the index.
pub matching : Index → String → List JprqTunnel → List JprqTunnel
matching index value [] = []
matching index value (t ∷ ts) =
    let rest = matching index value ts in if index_value index t == value then t ∷ rest else rest

-- A List with `MatchingFields` answers with the tunnels of the cluster that have the value.
abbrev pub Serves : List JprqTunnel → TunnelList → Type 0
Serves cluster list_tunnels =
    (index : Index) (value : String) → list_tunnels index value ≡ ok (matching index value cluster)

-- A tunnel of the cluster with this name that depends on the object.
pub record Affected (depends : JprqTunnel → Type 0) (cluster : List JprqTunnel) (name : String)
    : Type 0 where
  pub tunnel : JprqTunnel
  pub in_cluster : Memᴰ tunnel cluster
  pub named : tunnel.name ≡ name
  pub dependent : depends tunnel

Affected-mono :
    {P Q : JprqTunnel → Type 0} (cluster : List JprqTunnel) (name : String)
    → ((t : JprqTunnel) → Memᴰ t cluster → P t → Q t)
    → Affected P cluster name
    → Affected Q cluster name
Affected-mono cluster name h a = record {
  tunnel = a.tunnel;
  in_cluster = a.in_cluster;
  named = a.named;
  dependent = h a.tunnel a.in_cluster a.dependent;
}

All-mem :
    {P : JprqTunnel → Type 0} (cluster : List JprqTunnel) (t : JprqTunnel)
    → All P cluster
    → Memᴰ t cluster
    → (x : JprqTunnel) × (t ≡ x) × P x
All-mem [] t h m = absurd (Memᴰ.not-nil m)
All-mem (x ∷ xs) t h (Memᴰ.head e) = (x, e, h.0)
All-mem (x ∷ xs) t h (Memᴰ.tail m) = All-mem xs t h.1 m

matching_sound :
    (index : Index) (value : String) (cluster : List JprqTunnel) (t : JprqTunnel)
    → Memᴰ t (matching index value cluster)
    → Memᴰ t cluster × (index_value index t ≡ value)
unfolding matching
matching_sound index value [] t m = absurd (Memᴰ.not-nil m)
matching_sound index value (x ∷ xs) t m = elim (Bool-cases (index_value index x == value)) [
  | inl same ↦ elim (Memᴰ.cases_cons (rw same at m)) [
    | inl e ↦ (Memᴰ.head e, ap (index_value index) e ∙ (eq_iff _ value).0 same)
    | inr later ↦ let (n, v) = matching_sound index value xs t later in (Memᴰ.tail n, v)
  ]
  | inr other ↦ let (n, v) = matching_sound index value xs t (rw other at m) in (Memᴰ.tail n, v)
]

matching_complete :
    (index : Index) (value : String) (cluster : List JprqTunnel) (t : JprqTunnel)
    → Memᴰ t cluster
    → index_value index t ≡ value
    → Memᴰ t (matching index value cluster)
unfolding matching
matching_complete index value [] t m h = absurd (Memᴰ.not-nil m)
matching_complete index value (x ∷ xs) t (Memᴰ.head e) h =
    rw ((eq_iff (index_value index x) value).1 (ap (index_value index) (sym e) ∙ h)) (Memᴰ.head e)
matching_complete index value (x ∷ xs) t (Memᴰ.tail m) h =
    elim (Bool-cases (index_value index x == value)) [
      | inl same ↦ rw same (Memᴰ.tail (matching_complete index value xs t m h))
      | inr other ↦ rw other (matching_complete index value xs t m h)
    ]

-- The tunnel forwards to this Service.
abbrev pub ForwardsTo : String → String → JprqTunnel → Type 0
ForwardsTo namespace service t =
    (t.spec.backend.namespace ≡ namespace) × (t.spec.backend.service_name ≡ service)

-- The tunnel takes its token from this Secret.
abbrev pub TakesToken : String → String → String → JprqTunnel → Type 0
TakesToken operator_namespace namespace secret_name t =
    (namespace ≡ operator_namespace) × (t.spec.jprq_token_secret.name ≡ secret_name)

module _ (cluster : List JprqTunnel) (list_tunnels : TunnelList)
    (serves : Serves cluster list_tunnels) where
  requests_lem :
      (index : Index) (value : String)
      → requests_by_index list_tunnels index value
        ≡ map (λ t. t.name) (matching index value cluster)
  unfolding requests_by_index
  requests_lem index value = rw (serves index value)

  requests_sound :
      (index : Index) (value name : String)
      → Memᴰ name (requests_by_index list_tunnels index value)
      → Affected (λ t. index_value index t ≡ value) cluster name
  requests_sound index value name m =
      let (t, n, e) =
        Memᴰ.of_map (λ t. t.name) (matching index value cluster)
          (rw (requests_lem index value) at m) in
      let (c, v) = matching_sound index value cluster t n in
      record { tunnel = t; in_cluster = c; named = e; dependent = v }

  requests_complete :
      (index : Index) (value name : String)
      → Affected (λ t. index_value index t ≡ value) cluster name
      → Memᴰ name (requests_by_index list_tunnels index value)
  requests_complete index value name a = rw (requests_lem index value) (
      Memᴰ.cast (sym a.named) (
        Memᴰ.map (λ t. t.name)
          (matching_complete index value cluster a.tunnel a.in_cluster a.dependent)))

  -- An event on a Secret enqueues exactly the tunnels that depend on it: those that name it, if it is in
  -- the operator's namespace, and else none.
  pub tunnels_for_secret_exact :
      (operator_namespace namespace secret_name name : String)
      → Memᴰ name (tunnels_for_secret list_tunnels operator_namespace namespace secret_name)
        ↔ Affected (TakesToken operator_namespace namespace secret_name) cluster name
  unfolding tunnels_for_secret index_value
  tunnels_for_secret_exact operator_namespace namespace secret_name name =
      elim (Bool-cases (namespace == operator_namespace)) [
        | inl same ↦ rw same (
          λ m.
              Affected-mono cluster name (λ t _ e. ((eq_iff _ _).0 same, e))
                (requests_sound token_secret secret_name name m),
          λ a.
              requests_complete token_secret secret_name name
                (Affected-mono cluster name (λ t _ e. e.1) a),
        )
        | inr other ↦
            rw other (λ m. absurd (Memᴰ.not-nil m), λ a. absurd (foreign other a.dependent.0))
      ]
    where
      foreign : (namespace == operator_namespace) ≡ false → namespace ≡ operator_namespace → ⊥
      foreign other e = ground (arith, eq_iff namespace operator_namespace)

  -- A namespace is a DNS label, so it has no slash.
  module _ (labels : All (λ t. has_slash t.spec.backend.namespace ≡ false) cluster)
      (namespace : String) (label : has_slash namespace ≡ false) where
    namespace_label : (t : JprqTunnel) → Memᴰ t cluster → has_slash t.spec.backend.namespace ≡ false
    namespace_label t m =
        let (x, e, h) = All-mem cluster t labels m in
        ap (λ y. has_slash y.spec.backend.namespace) e ∙ h

    service_requests :
        (service name : String)
        → Memᴰ name
            (requests_by_index list_tunnels backend_service (service_ref_key namespace service))
          ↔ Affected (ForwardsTo namespace service) cluster name
    unfolding index_value
    service_requests service name = (
      λ m.
          Affected-mono cluster name
            (λ t c e. service_ref_key_injective _ _ _ _ (namespace_label t c) label e)
            (requests_sound backend_service (service_ref_key namespace service) name m),
      λ a. requests_complete backend_service (service_ref_key namespace service) name (
          Affected-mono cluster name
            (λ t c h.
              ap (λ ns. service_ref_key ns t.spec.backend.service_name) h.0
              ∙ ap (service_ref_key namespace) h.1)
            a),
    )

    -- Where no namespace has a slash in it, an event on a Service enqueues exactly the tunnels whose
    -- backend it is.
    pub tunnels_for_service_exact :
        (service name : String)
        → Memᴰ name (tunnels_for_service list_tunnels namespace service)
          ↔ Affected (ForwardsTo namespace service) cluster name
    unfolding tunnels_for_service
    tunnels_for_service_exact service name = service_requests service name

    -- Where no namespace has a slash in it, an event on an EndpointSlice whose label names a Service
    -- enqueues exactly the tunnels whose backend that Service is.
    pub tunnels_for_endpoint_slice_exact :
        (service_name_label service name : String) (slice_labels : List (String × String))
        → lookup service_name_label slice_labels ≡ some service
        → service ≢ ""
        → Memᴰ name
            (tunnels_for_endpoint_slice list_tunnels service_name_label namespace slice_labels)
          ↔ Affected (ForwardsTo namespace service) cluster name
    unfolding tunnels_for_endpoint_slice
    tunnels_for_endpoint_slice_exact service_name_label service name slice_labels found named =
        rw (found, not_empty) (service_requests service name)
      where
        not_empty : (service == "") ≡ false
        not_empty = ground (arith, eq_iff service "")
