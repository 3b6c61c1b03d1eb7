-- ===== src/Controller/Tests/Watches.antt =====
-- internal/controller/jprqtunnel_controller.go: watch events in a cluster with one tunnel.
use mathlib.Core.List.{Memᴰ}
use jprq_bek.Base.{◌≡◌, ◌≢◌, ◌↔◌, refl, String, true, false, List, [], ◌∷◌, Option, none, ok, All}
use jprq_bek.Api.{JprqTunnel, pending}
use jprq_bek.Controller.Watches.{
  TunnelList, tunnels_for_secret, tunnels_for_service, tunnels_for_endpoint_slice,
  setup_with_manager,
}
use jprq_bek.Controller.Watches.Keys.{has_slash}
use jprq_bek.Controller.Watches.Events.{
  matching, Serves, Affected, ForwardsTo, TakesToken, tunnels_for_secret_exact,
  tunnels_for_service_exact, tunnels_for_endpoint_slice_exact,
}
use jprq_bek.Controller.Watches.Setup.{setup_with_manager_succeeds}
use jprq_bek.Controller.Tests.Samples.{sample_tunnel}

abbrev sample_cluster : List JprqTunnel
sample_cluster = sample_tunnel pending ∷ []

abbrev sample_list : TunnelList
sample_list index value = ok (matching index value sample_cluster)

sample-Serves : Serves sample_cluster sample_list
sample-Serves index value = refl

sample_labels : All (λ t. has_slash t.spec.backend.namespace ≡ false) sample_cluster
unfolding has_slash
sample_labels = (refl, tt)

web_label : has_slash "web" ≡ false
unfolding has_slash
web_label = refl

abbrev front : String
front = "front"

front_named : front ≢ ""
front_named e = cc

tunnels_for_secret_exact_example :
    Memᴰ {A = String} "shop" (tunnels_for_secret sample_list "operators" "operators" "jprq")
    ↔ Affected (TakesToken "operators" "operators" "jprq") sample_cluster "shop"
tunnels_for_secret_exact_example =
    tunnels_for_secret_exact sample_cluster sample_list sample-Serves "operators" "operators" "jprq"
      "shop"

tunnels_for_service_exact_example :
    Memᴰ {A = String} "shop" (tunnels_for_service sample_list "web" front)
    ↔ Affected (ForwardsTo "web" front) sample_cluster "shop"
tunnels_for_service_exact_example =
    tunnels_for_service_exact sample_cluster sample_list sample-Serves sample_labels "web" web_label
      front "shop"

tunnels_for_endpoint_slice_exact_example :
    Memᴰ {A = String} "shop"
      (tunnels_for_endpoint_slice sample_list "service" "web" (("service", front) ∷ []))
    ↔ Affected (ForwardsTo "web" front) sample_cluster "shop"
tunnels_for_endpoint_slice_exact_example =
    tunnels_for_endpoint_slice_exact sample_cluster sample_list sample-Serves sample_labels "web"
      web_label "service" front "shop" (("service", front) ∷ []) refl front_named

abbrev no_image : String
no_image = ""

abbrev operators : String
operators = "operators"

abbrev no_error : Option String
no_error = none

setup_with_manager_succeeds_example :
    (setup_with_manager operators no_image true (λ i. none) no_error ≡ none) ↔ (
      (operators ≢ "")
      × (no_image ≢ "")
      × (true ≡ true)
      × (no_error ≡ none)
      × (no_error ≡ none)
      × (no_error ≡ none))
setup_with_manager_succeeds_example =
    setup_with_manager_succeeds operators no_image true (λ i. none) no_error
