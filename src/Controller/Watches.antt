-- ===== src/Controller/Watches.antt =====
-- internal/controller/jprqtunnel_controller.go: `SetupWithManager` and the maps from watch events to
-- requests. The cluster's answer to a List by field index is a parameter.
pub mod Keys
pub mod Events
pub mod Setup
use jprq_bek.Base.{
  String, ◌<>◌, ◌==◌, Bool, not, List, [], Option, none, some, Result, ok, err, if◌then◌else◌,
  lookup_or_empty,
}
use mathlib.Core.List.{map}
use jprq_bek.Api.{JprqTunnel}

-- `indexBackendService` and `indexTokenSecret`.
pub data Index : Type 0 where
  backend_service token_secret : Index

abbrev pub index_name : Index → String
index_name backend_service = "spec.backend.serviceRef"
index_name token_secret = "spec.jprqTokenSecret.name"

-- `serviceRefKey`
unfoldable pub service_ref_key : String → String → String
service_ref_key namespace name = namespace <> "/" <> name

-- The values that the two index functions of `SetupWithManager` give a tunnel.
unfoldable pub index_value : Index → JprqTunnel → String
unfolding service_ref_key
index_value backend_service tunnel =
    service_ref_key tunnel.spec.backend.namespace tunnel.spec.backend.service_name
index_value token_secret tunnel = tunnel.spec.jprq_token_secret.name

-- `client.List` of tunnels, with `MatchingFields`.
abbrev pub TunnelList : Type 0
TunnelList = Index → String → Result (List JprqTunnel)

abbrev requests_of : Result (List JprqTunnel) → List String
requests_of (err e) = []
requests_of (ok tunnels) = map (λ tunnel. tunnel.name) tunnels

-- `requestsByIndex`: a request is the name of a tunnel.
unfoldable pub requests_by_index : TunnelList → Index → String → List String
requests_by_index list_tunnels index value = requests_of (list_tunnels index value)

-- `tunnelsForSecret`
unfoldable pub tunnels_for_secret : TunnelList → String → String → String → List String
unfolding requests_by_index
tunnels_for_secret list_tunnels operator_namespace namespace name =
    if not (namespace == operator_namespace)
    then []
    else requests_by_index list_tunnels token_secret name

-- `tunnelsForService`
unfoldable pub tunnels_for_service : TunnelList → String → String → List String
unfolding requests_by_index service_ref_key
tunnels_for_service list_tunnels namespace name =
    requests_by_index list_tunnels backend_service (service_ref_key namespace name)

-- `tunnelsForEndpointSlice`, of `discoveryv1.LabelServiceName`, and the namespace and the labels of the
-- slice.
unfoldable pub tunnels_for_endpoint_slice :
    TunnelList → String → String → List (String × String) → List String
unfolding requests_by_index service_ref_key
tunnels_for_endpoint_slice list_tunnels service_name_label namespace labels =
    let service_name = lookup_or_empty service_name_label labels in
    if service_name == ""
    then []
    else requests_by_index list_tunnels backend_service (service_ref_key namespace service_name)

abbrev index_error : Index → String → String
index_error index e = "indexing " <> index_name index <> ": " <> e

abbrev complete_after : (Index → Option String) → Option String → Option String
complete_after index_field complete = elim (index_field backend_service) [
  | some e ↦ some (index_error backend_service e)
  | none ↦ elim (index_field token_secret) [
    | some e ↦ some (index_error token_secret e)
    | none ↦ complete
  ]
]

-- `SetupWithManager`: its error, from the answers of `IndexField` and of the builder.
unfoldable pub setup_with_manager :
    String → String → Bool → (Index → Option String) → Option String → Option String
setup_with_manager operator_namespace agent_image has_domain index_field complete =
    if operator_namespace == ""
    then some "JprqTunnelReconciler.OperatorNamespace must be set"
    else if agent_image == ""
    then some "JprqTunnelReconciler.AgentImage must be set"
    else if not has_domain
    then some "JprqTunnelReconciler.Domain must be set"
    else complete_after index_field complete
