-- ===== src/Agent/ServerError.antt =====
-- cli/jprqc.go, `exitCodeForServerError`: the exit code for an error message of the jprq server.
-- `strings.HasPrefix` is the text library's `starts_with`.
use text.Mathlib.Text.{starts_with}
use jprq_bek.Base.{String, ℤ, if◌then◌else◌}
use jprq_bek.Agent.ExitCodes.{
  exit_unexpected, exit_subdomain_busy, exit_cname_busy, exit_account_tunnel_limit,
  exit_auth_failed, exit_invalid_subdomain, exit_not_allowlisted, err_prefix_subdomain_busy,
  err_prefix_cname_busy, err_prefix_tunnels_limit_reached, err_prefix_auth_failed,
  err_prefix_invalid_subdomain, err_prefix_invite_only,
}

unfoldable pub exit_code_for_server_error : String → ℤ
exit_code_for_server_error message =
    if starts_with message err_prefix_subdomain_busy
    then exit_subdomain_busy
    else if starts_with message err_prefix_cname_busy
    then exit_cname_busy
    else if starts_with message err_prefix_tunnels_limit_reached
    then exit_account_tunnel_limit
    else if starts_with message err_prefix_auth_failed
    then exit_auth_failed
    else if starts_with message err_prefix_invalid_subdomain
    then exit_invalid_subdomain
    else if starts_with message err_prefix_invite_only
    then exit_not_allowlisted
    else exit_unexpected
