-- ===== src/Controller/Classify/Messages.antt =====
-- cli/jprqc.go and internal/controller/classify.go together: from the message of the jprq server,
-- through the agent's exit code, to the controller's verdict.
use text.Mathlib.Text.{starts_with}
use jprq_bek.Base.{◌≡◌, refl, Bool, not, true, false, String, arith}
use jprq_bek.Base.Prefix.{starts_with-same_head}
use jprq_bek.Api.{
  CollisionBehavior, Reason, is_retry, subdomain_busy, cname_busy, account_tunnel_limit_reached,
  auth_failed, not_allowlisted, invalid_subdomain, agent_exited,
}
use jprq_bek.Agent.ExitCodes.{
  exit_unexpected, exit_subdomain_busy, exit_cname_busy, exit_account_tunnel_limit,
  exit_auth_failed, exit_invalid_subdomain, exit_not_allowlisted, err_prefix_subdomain_busy,
  err_prefix_cname_busy, err_prefix_tunnels_limit_reached, err_prefix_auth_failed,
  err_prefix_invalid_subdomain, err_prefix_invite_only,
}
use jprq_bek.Agent.ServerError.{exit_code_for_server_error}
use jprq_bek.Controller.Classify.{Verdict, classify_exit}

module _ (m : String) where
  subdomain_busy_code :
      starts_with m err_prefix_subdomain_busy ≡ true
      → exit_code_for_server_error m ≡ exit_subdomain_busy
  unfolding exit_code_for_server_error
  subdomain_busy_code h = ground arith

  cname_busy_code :
      starts_with m err_prefix_cname_busy ≡ true → exit_code_for_server_error m ≡ exit_cname_busy
  unfolding exit_code_for_server_error
  cname_busy_code h =
      ground (arith, starts_with-same_head m "name is busy:" "ubdomain is busy:" "c" "s")

  tunnels_limit_reached_code :
      starts_with m err_prefix_tunnels_limit_reached ≡ true
      → exit_code_for_server_error m ≡ exit_account_tunnel_limit
  unfolding exit_code_for_server_error
  tunnels_limit_reached_code h = ground (
    arith,
    starts_with-same_head m "unnels limit reached for" "ubdomain is busy:" "t" "s",
    starts_with-same_head m "unnels limit reached for" "name is busy:" "t" "c",
  )

  auth_failed_code :
      starts_with m err_prefix_auth_failed ≡ true → exit_code_for_server_error m ≡ exit_auth_failed
  unfolding exit_code_for_server_error
  auth_failed_code h = ground (
    arith,
    starts_with-same_head m "uthentication failed" "ubdomain is busy:" "a" "s",
    starts_with-same_head m "uthentication failed" "name is busy:" "a" "c",
    starts_with-same_head m "uthentication failed" "unnels limit reached for" "a" "t",
  )

  invalid_subdomain_code :
      starts_with m err_prefix_invalid_subdomain ≡ true
      → exit_code_for_server_error m ≡ exit_invalid_subdomain
  unfolding exit_code_for_server_error
  invalid_subdomain_code h = ground (
    arith,
    starts_with-same_head m "nvalid subdomain" "ubdomain is busy:" "i" "s",
    starts_with-same_head m "nvalid subdomain" "name is busy:" "i" "c",
    starts_with-same_head m "nvalid subdomain" "unnels limit reached for" "i" "t",
    starts_with-same_head m "nvalid subdomain" "uthentication failed" "i" "a",
  )

  invite_only_code :
      starts_with m err_prefix_invite_only ≡ true
      → exit_code_for_server_error m ≡ exit_not_allowlisted
  unfolding exit_code_for_server_error
  invite_only_code h = ground (
    arith,
    starts_with-same_head m "prq is now invite-only service" "ubdomain is busy:" "j" "s",
    starts_with-same_head m "prq is now invite-only service" "name is busy:" "j" "c",
    starts_with-same_head m "prq is now invite-only service" "unnels limit reached for" "j" "t",
    starts_with-same_head m "prq is now invite-only service" "uthentication failed" "j" "a",
    starts_with-same_head m "prq is now invite-only service" "nvalid subdomain" "j" "i",
  )

  -- None of the known prefixes.
  abbrev pub IsUnknown : Type 0
  IsUnknown =
      (starts_with m err_prefix_subdomain_busy ≡ false)
      × (starts_with m err_prefix_cname_busy ≡ false)
      × (starts_with m err_prefix_tunnels_limit_reached ≡ false)
      × (starts_with m err_prefix_auth_failed ≡ false)
      × (starts_with m err_prefix_invalid_subdomain ≡ false)
      × (starts_with m err_prefix_invite_only ≡ false)

  unknown_code : IsUnknown → exit_code_for_server_error m ≡ exit_unexpected
  unfolding exit_code_for_server_error
  unknown_code h = ground arith

-- A message of the jprq server under a collision behaviour, with the reason that it stands for, whether
-- it is final, and whether it blames the token.
pub data ServerError (m : String) (b : CollisionBehavior) : Reason → Bool → Bool → Type 0 where
  is_subdomain_busy_error :
      starts_with m err_prefix_subdomain_busy ≡ true
      → ServerError m b subdomain_busy (not (is_retry b)) false
  is_cname_busy_error :
      starts_with m err_prefix_cname_busy ≡ true → ServerError m b cname_busy true false
  is_tunnels_limit_error :
      starts_with m err_prefix_tunnels_limit_reached ≡ true
      → ServerError m b account_tunnel_limit_reached true false
  is_auth_failed_error :
      starts_with m err_prefix_auth_failed ≡ true → ServerError m b auth_failed true true
  is_invalid_subdomain_error :
      starts_with m err_prefix_invalid_subdomain ≡ true
      → ServerError m b invalid_subdomain true false
  is_invite_only_error :
      starts_with m err_prefix_invite_only ≡ true → ServerError m b not_allowlisted true true
  is_unknown_error : IsUnknown m → ServerError m b agent_exited false false

-- The parts of a verdict that decide what happens to the tunnel.
pub record Decides (v : Verdict) (reason : Reason) (terminal token_invalid : Bool) : Type 0 where
  pub reason_is : v.reason ≡ reason
  pub terminal_is : v.terminal ≡ terminal
  pub token_invalid_is : v.token_invalid ≡ token_invalid

decides :
    (v : Verdict) (reason : Reason) (terminal token_invalid : Bool)
    → v.reason ≡ reason
    → v.terminal ≡ terminal
    → v.token_invalid ≡ token_invalid
    → Decides v reason terminal token_invalid
decides v r terminal token_invalid h i j = record {
  reason_is = h;
  terminal_is = i;
  token_invalid_is = j;
}

-- Whatever the order in which the agent tries the prefixes: a server message with one of the six known
-- prefixes becomes, through the agent's exit code, the verdict with that error's reason, which is
-- terminal (for a busy subdomain, unless the collision behaviour is retry) and which calls the token
-- invalid for a failed authentication and an account that is not invited; any other message becomes
-- the verdict agent_exited, which is not terminal.
pub ServerError-verdict :
    (m : String) (b : CollisionBehavior) {reason : Reason} {terminal token_invalid : Bool}
    → ServerError m b reason terminal token_invalid
    → Decides (classify_exit (exit_code_for_server_error m) b) reason terminal token_invalid
unfolding classify_exit
ServerError-verdict m b (is_subdomain_busy_error h) =
    rw (subdomain_busy_code m h) (decides _ _ _ _ (ground arith) (ground arith) (ground arith))
ServerError-verdict m b (is_cname_busy_error h) =
    rw (cname_busy_code m h) (decides _ _ _ _ refl refl refl)
ServerError-verdict m b (is_tunnels_limit_error h) =
    rw (tunnels_limit_reached_code m h) (decides _ _ _ _ refl refl refl)
ServerError-verdict m b (is_auth_failed_error h) =
    rw (auth_failed_code m h) (decides _ _ _ _ refl refl refl)
ServerError-verdict m b (is_invalid_subdomain_error h) =
    rw (invalid_subdomain_code m h) (decides _ _ _ _ refl refl refl)
ServerError-verdict m b (is_invite_only_error h) =
    rw (invite_only_code m h) (decides _ _ _ _ refl refl refl)
ServerError-verdict m b (is_unknown_error h) =
    rw (unknown_code m h) (decides _ _ _ _ refl refl refl)
