-- ===== src/Api/Admission.antt =====
-- api/v1alpha1/jprqtunnel_types.go: the validation markers, by which the API server admits a spec. The
-- defaults have been filled in before.
pub mod Subdomains
pub mod Labels
use Prim.Native.Char.{code}
use Prim.Native.String
use jprq_bek.Base.{
  ℕ, zero, suc, ◌+◌, String, ◌==◌, Bool, true, false, not, ◌&&◌, ◌||◌, List, [], ◌∷◌, Option, none,
  some, is_some, ltb, leb, ◌=ℕ=◌, if◌then◌else◌,
}
use jprq_bek.Api.Enums.{
  CollisionBehavior, no_collision, collision_fail, collision_retry, collision_add_suffix,
}
use jprq_bek.Api.Types.{JprqTunnelSpec}

-- The characters of a text, by their code points.
unfoldable pub codes : String → List ℕ
codes String.[] = []
codes (String.◌∷◌ c s) = code c ∷ codes s

unfoldable pub size : List ℕ → ℕ
size [] = 0
size (c ∷ cs) = suc (size cs)

-- The text behind the marker `Pattern`.
abbrev pub subdomain_pattern : String
subdomain_pattern = "^[a-z0-9](?:[a-z0-9]|-[a-z0-9]){2,37}$"

-- The markers of `Subdomain`, and the rule on the reserved names. `matches pattern text` is the API
-- server's answer to whether the pattern matches the text.
unfoldable pub admits_subdomain : (matches : String → String → Bool) → String → Bool
unfolding codes size
admits_subdomain matches s =
    leb 3 (size (codes s))
    && leb (size (codes s)) 38
    && matches subdomain_pattern s
    && (not (s == "www") && not (s == "jprq"))

-- The enum marker, and the rule on `addSuffix`.
abbrev pub admits_behavior : CollisionBehavior → Bool
admits_behavior no_collision = false
admits_behavior collision_fail = true
admits_behavior collision_retry = true
admits_behavior collision_add_suffix = false

-- The markers of a spec. `MinLength=1` says that a text is not empty.
unfoldable pub admits : (matches : String → String → Bool) → JprqTunnelSpec → Bool
unfolding admits_subdomain
admits matches spec =
    admits_subdomain matches spec.subdomain
    && admits_behavior spec.subdomain_collision_behavior
    && not (is_some spec.cname)
    && not (spec.backend.namespace == "")
    && not (spec.backend.service_name == "")
    && not (spec.jprq_token_secret.name == "")
