-- ===== src/Controller/Watches/Setup.antt =====
-- internal/controller/jprqtunnel_controller.go, `SetupWithManager`: when it succeeds.
use jprq_bek.Base.{◌≡◌, ◌≢◌, ◌↔◌, String, Bool, true, Option, none, arith, eq_iff}
use jprq_bek.Controller.Watches.{Index, backend_service, token_secret, setup_with_manager}

-- The set-up succeeds exactly when the operator namespace and the agent image are given, there is a
-- domain resolver, both indexes are registered, and the builder completes.
pub setup_with_manager_succeeds :
    (operator_namespace agent_image : String) (has_domain : Bool)
    (index_field : Index → Option String) (complete : Option String)
    → (setup_with_manager operator_namespace agent_image has_domain index_field complete ≡ none) ↔ (
        (operator_namespace ≢ "")
        × (agent_image ≢ "")
        × (has_domain ≡ true)
        × (index_field backend_service ≡ none)
        × (index_field token_secret ≡ none)
        × (complete ≡ none))
unfolding setup_with_manager
setup_with_manager_succeeds operator_namespace agent_image has_domain index_field complete =
    ground (arith, eq_iff operator_namespace "", eq_iff agent_image "")
