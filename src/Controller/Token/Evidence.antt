-- ===== src/Controller/Token/Evidence.antt =====
-- internal/controller/jprqtunnel_controller.go, `checkToken`: what an open gate says of the Secret.
use jprq_bek.Base.{
  ◌≡◌, ◌≢◌, ℕ, true, false, List, [], Option, none, some, refl, lookup, trim_space, is_nil, arith,
}
use jprq_bek.Api.{JprqTunnel, SecretKeyRef}
use jprq_bek.Kube.{Secret, Fetched, found, missing, refused}
use jprq_bek.Controller.Run.{Env, Run, got_secret}
use jprq_bek.Controller.Ends.{Ends, Ends-if}
use jprq_bek.Controller.Calls.{Reads, Reads-kept, Reads-one}
use jprq_bek.Controller.Gate.{Gate}
use jprq_bek.Controller.Token.{secret_key_of, check_value, check_secret, check_token}

nonempty : (l : List ℕ) → is_nil l ≡ false → l ≢ []
nonempty l h e = ground (arith, e)

module _ (env : Env) (tunnel : JprqTunnel) where
  abbrev ref : SecretKeyRef
  ref = tunnel.spec.jprq_token_secret

  -- The Secret in the operator namespace holds these bytes under the tunnel's key, and they are not blank.
  pub record HasToken (token : List ℕ) : Type 0 where
    pub secret : Secret
    pub read : env.api.get_secret env.operator_namespace ref.name ≡ found secret
    pub held : lookup (secret_key_of ref) secret.data_of ≡ some token
    pub not_blank : trim_space token ≢ []

  -- An open gate, with the status that the step may leave.
  pub record TokenChecked (s₀ : Run) (r : List ℕ × Gate) (s : Run) : Type 0 where
    pub evidence : r.1.passed ≡ true → HasToken r.0
    pub reads : Reads env s₀ s

  check_value-Ends :
      (secret : Secret) (value : Option (List ℕ)) (s₀ s : Run)
      → Reads env s₀ s
      → env.api.get_secret env.operator_namespace ref.name ≡ found secret
      → lookup (secret_key_of ref) secret.data_of ≡ value
      → Ends (TokenChecked s₀) (Reads env s₀) (check_value env ref.name (secret_key_of ref) value s)
  unfolding check_value
  check_value-Ends secret none s₀ s q h l = record {
    holds = record { evidence = λ e. cc; reads = Reads-kept q refl refl };
  }
  check_value-Ends secret (some token) s₀ s q h l =
      Ends-if (is_nil (trim_space token)) _ _ s
        (λ blank. record { holds = record { evidence = λ e. cc; reads = Reads-kept q refl refl } })
        (λ full. record {
          holds = record {
            evidence =
                λ e. record { secret = secret; read = h; held = l; not_blank = nonempty _ full };
            reads = Reads-kept q refl refl;
          };
        })

  check_secret-Ends :
      (answer : Fetched Secret) (s₀ s : Run)
      → Reads env s₀ s
      → env.api.get_secret env.operator_namespace ref.name ≡ answer
      → Ends (TokenChecked s₀) (Reads env s₀) (check_secret env ref answer s)
  unfolding check_secret
  check_secret-Ends (refused e) s₀ s q h = record { holds = q }
  check_secret-Ends missing s₀ s q h = record {
    holds = record { evidence = λ e. cc; reads = Reads-kept q refl refl };
  }
  check_secret-Ends (found secret) s₀ s q h = check_value-Ends secret _ s₀ s q h refl

  -- The gate opens only for a Secret that holds a token which is not blank, and hands over that token.
  pub check_token-Ends :
      (s₀ s : Run)
      → Reads env s₀ s
      → Ends (TokenChecked s₀) (Reads env s₀) (check_token env tunnel s)
  unfolding check_token
  check_token-Ends s₀ s q =
      check_secret-Ends _ s₀ _
        (Reads-one (got_secret env.operator_namespace ref.name) q refl refl refl) refl
