-- ===== src/Controller/Tests/Admission.antt =====
-- api/v1alpha1/jprqtunnel_types.go: the sample spec is admitted.
use jprq_bek.Base.{◌≡◌, refl, String, ◌==◌, Bool, true, ◌&&◌}
use jprq_bek.Api.Admission.{codes, size, subdomain_pattern, admits_subdomain, admits}
use jprq_bek.Api.Admission.Subdomains.{Matches, both_true}
use jprq_bek.Api.Admission.Labels.{IsSound, admits-IsSound}
use jprq_bek.Controller.Tests.Patterns.{repeats, matches_pattern, matches_pattern-Matches}
use jprq_bek.Controller.Tests.Samples.{sample_spec}

-- A matcher that knows one pattern.
abbrev matcher : String → String → Bool
matcher pattern s =
    (pattern == "^[a-z0-9](?:[a-z0-9]|-[a-z0-9]){2,37}$") && matches_pattern (codes s)

matcher-Matches :
    (s : String) → matcher "^[a-z0-9](?:[a-z0-9]|-[a-z0-9]){2,37}$" s ≡ true → Matches (codes s)
matcher-Matches s h =
    matches_pattern-Matches (codes s)
      (both_true (subdomain_pattern == subdomain_pattern) (matches_pattern (codes s)) h).1

sample_spec_admitted : admits matcher sample_spec ≡ true
unfolding admits admits_subdomain matches_pattern repeats size codes
sample_spec_admitted = refl

admits-IsSound_example : IsSound sample_spec
admits-IsSound_example = admits-IsSound matcher matcher-Matches sample_spec sample_spec_admitted
