-- ===== src/Api/Admission/Labels.antt =====
-- api/v1alpha1/jprqtunnel_types.go: the validation markers, as the controller sees their effect.
use jprq_bek.Base.{
  ℕ, ◌≤◌, ◌≡◌, ◌≢◌, ◌⊎◌, inl, inr, refl, String, ◌==◌, eq_iff, Bool, true, not, ◌&&◌, List, ◌∷◌,
  Option, none, some, is_some, leb, arith,
}
use jprq_bek.Api.Enums.{
  CollisionBehavior, no_collision, collision_fail, collision_retry, collision_add_suffix,
}
use jprq_bek.Api.Types.{JprqTunnelSpec}
use jprq_bek.Api.Admission.{
  codes, size, subdomain_pattern, admits_subdomain, admits_behavior, admits,
}
use jprq_bek.Api.Admission.Subdomains.{
  is_alnum, both_true, Matches, EndsWell, before_EndsWell, Pieces-EndsWell,
}

-- A label of a host name.
pub record IsLabel (s : String) : Type 0 where
  pub first : ℕ
  pub rest : List ℕ
  pub parts : codes s ≡ first ∷ rest
  pub first_alnum : is_alnum first ≡ true
  pub well_formed : EndsWell (first ∷ rest)
  pub at_most : size (codes s) ≤ 63

-- What is known of an admitted spec.
pub record IsSound (spec : JprqTunnelSpec) : Type 0 where
  pub label : IsLabel spec.subdomain
  pub not_www : spec.subdomain ≢ "www"
  pub not_jprq : spec.subdomain ≢ "jprq"
  pub behavior :
      (spec.subdomain_collision_behavior ≡ collision_fail)
      ⊎ (spec.subdomain_collision_behavior ≡ collision_retry)
  pub no_cname : spec.cname ≡ none
  pub namespace : spec.backend.namespace ≢ ""
  pub service_name : spec.backend.service_name ≢ ""
  pub secret_name : spec.jprq_token_secret.name ≢ ""

other_text : (s t : String) → not (s == t) ≡ true → s ≢ t
other_text s t h = ground (arith, eq_iff s t)

some_behavior :
    (b : CollisionBehavior)
    → admits_behavior b ≡ true
    → (b ≡ collision_fail) ⊎ (b ≡ collision_retry)
some_behavior no_collision h = cc
some_behavior collision_fail h = inl refl
some_behavior collision_retry h = inr refl
some_behavior collision_add_suffix h = cc

absent {ℓ} : {A : Type ℓ} (o : Option A) → not (is_some o) ≡ true → o ≡ none
absent none h = refl
absent (some a) h = cc

short_enough : (n : ℕ) → leb n 38 ≡ true → n ≤ 63
short_enough n h = ground arith

subdomain-IsLabel : (s : String) → leb (size (codes s)) 38 ≡ true → Matches (codes s) → IsLabel s
subdomain-IsLabel s h m = record {
  first = m.first;
  rest = m.rest;
  parts = m.parts;
  first_alnum = m.first_alnum;
  well_formed =
      before_EndsWell m.first m.rest m.first_alnum (Pieces-EndsWell m.number m.rest m.pieces);
  at_most = short_enough _ h;
}

subdomain-checked :
    (matches : String → String → Bool)
    → ((s : String) → matches "^[a-z0-9](?:[a-z0-9]|-[a-z0-9]){2,37}$" s ≡ true → Matches (codes s))
    → (s : String) → admits_subdomain matches s ≡ true
    → IsLabel s × (s ≢ "www") × (s ≢ "jprq")
unfolding admits_subdomain
subdomain-checked matches reads s h =
    let (h, reserved) = both_true _ (not (s == "www") && not (s == "jprq")) h in
    let (h, pattern) = both_true _ (matches subdomain_pattern s) h in
    let (_, longest) = both_true (leb 3 (size (codes s))) (leb (size (codes s)) 38) h in
    let (www, jprq) = both_true (not (s == "www")) (not (s == "jprq")) reserved in
    (
      subdomain-IsLabel s longest (reads s pattern),
      other_text s "www" www,
      other_text s "jprq" jprq,
    )

-- The API server admits only specs that the controller can serve, if its regular expressions mean what
-- the syntax says: that ^[a-z0-9](?:[a-z0-9]|-[a-z0-9]){2,37}$ matches only a letter or digit with 2 to
-- 37 pieces behind it, each a letter or digit or a hyphen and a letter or digit. Then the subdomain
-- of an admitted spec is a label of a host name, of letters, digits and hyphens, with a letter or
-- digit at both ends and at most 63 long, and is not reserved; the collision behaviour is to fail or to
-- retry; there is no cname; and the names of the Service, its namespace and the Secret are not empty.
pub admits-IsSound :
    (matches : String → String → Bool)
    → ((s : String) → matches "^[a-z0-9](?:[a-z0-9]|-[a-z0-9]){2,37}$" s ≡ true → Matches (codes s))
    → (spec : JprqTunnelSpec) → admits matches spec ≡ true
    → IsSound spec
unfolding admits
admits-IsSound matches reads spec h =
    let (h, secret) = both_true _ (not (spec.jprq_token_secret.name == "")) h in
    let (h, service) = both_true _ (not (spec.backend.service_name == "")) h in
    let (h, namespace) = both_true _ (not (spec.backend.namespace == "")) h in
    let (h, cname) = both_true _ (not (is_some spec.cname)) h in
    let (subdomain, behavior) =
      both_true (admits_subdomain matches spec.subdomain)
        (admits_behavior spec.subdomain_collision_behavior) h in
    let (label, www, jprq) = subdomain-checked matches reads spec.subdomain subdomain in
    record {
      label = label;
      not_www = www;
      not_jprq = jprq;
      behavior = some_behavior _ behavior;
      no_cname = absent _ cname;
      namespace = other_text _ _ namespace;
      service_name = other_text _ _ service;
      secret_name = other_text _ _ secret;
    }
