-- ===== src/Controller/Token.antt =====
-- internal/controller/jprqtunnel_controller.go, `checkToken`: the token Secret.
pub mod Evidence
use jprq_bek.Base.{
  ℕ, String, List, [], Option, none, some, ◌<>◌, ◌==◌, if◌then◌else◌, lookup, trim_space, is_nil,
}
use jprq_bek.Api.{
  JprqTunnel, SecretKeyRef, Reason, token_ready, cond_true, secret_not_found, secret_key_not_found,
  empty_token, token_found,
}
use jprq_bek.Kube.{Secret, Fetched, found, missing, refused}
use jprq_bek.Controller.Run.{Env, M, pure, fail, ◌>>=◌, ◌>>◌, call, got_secret, set_condition}
use jprq_bek.Controller.Gate.{Gate, open_gate, fail_gate}

abbrev pub default_token_key : String
default_token_key = "authToken"

-- The key that the tunnel names, or the default.
abbrev pub secret_key_of : SecretKeyRef → String
secret_key_of ref = if ref.key == "" then default_token_key else ref.key

module _ (env : Env) where
  open env use {ext, api, operator_namespace}
  open ext use {quoted, namespaced}

  abbrev no_token : Reason → String → M (List ℕ × Gate)
  no_token reason message = do pure ([], (← fail_gate ext token_ready reason message))

  -- The value under the key.
  unfoldable pub check_value : String → String → Option (List ℕ) → M (List ℕ × Gate)
  unfolding trim_space
  check_value name secret_key none =
      no_token secret_key_not_found
        ("Secret " <> quoted name <> " has no key " <> quoted secret_key)
  check_value name secret_key (some token) =
      if is_nil (trim_space token)
      then no_token empty_token
          ("key " <> quoted secret_key <> " of Secret " <> quoted name <> " is empty")
      else (do
        set_condition ext token_ready cond_true token_found
            ("using key " <> quoted secret_key <> " of Secret " <> quoted name)
        pure (token, open_gate))

  unfoldable pub check_secret : SecretKeyRef → Fetched Secret → M (List ℕ × Gate)
  unfolding check_value
  check_secret ref (refused e) =
      fail ("reading Secret " <> namespaced operator_namespace ref.name <> ": " <> e)
  check_secret ref missing =
      no_token secret_not_found
        ("Secret " <> quoted ref.name <> " not found in namespace " <> quoted operator_namespace)
  check_secret ref (found secret) =
      check_value ref.name (secret_key_of ref) (lookup (secret_key_of ref) secret.data_of)

  -- `checkToken`
  unfoldable pub check_token : JprqTunnel → M (List ℕ × Gate)
  unfolding check_secret
  check_token tunnel = do
    let ref = tunnel.spec.jprq_token_secret
    call (got_secret operator_namespace ref.name)
    check_secret ref (api.get_secret operator_namespace ref.name)
