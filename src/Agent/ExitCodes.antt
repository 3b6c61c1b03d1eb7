-- ===== src/Agent/ExitCodes.antt =====
-- cli/jprq/exitcodes.go: the exit codes that the agent and the controller share, and the prefixes by
-- which the agent knows the server's errors.
use jprq_bek.Base.{String, ℤ, pos}

abbrev pub exit_ok : ℤ
exit_ok = pos 0

abbrev pub exit_unexpected : ℤ
exit_unexpected = pos 1

abbrev pub exit_subdomain_busy : ℤ
exit_subdomain_busy = pos 10

abbrev pub exit_cname_busy : ℤ
exit_cname_busy = pos 11

abbrev pub exit_account_tunnel_limit : ℤ
exit_account_tunnel_limit = pos 12

abbrev pub exit_auth_failed : ℤ
exit_auth_failed = pos 13

abbrev pub exit_invalid_subdomain : ℤ
exit_invalid_subdomain = pos 14

abbrev pub exit_not_allowlisted : ℤ
exit_not_allowlisted = pos 15

abbrev pub exit_config_failure : ℤ
exit_config_failure = pos 20

abbrev pub exit_event_server_unreachable : ℤ
exit_event_server_unreachable = pos 21

abbrev pub exit_event_stream_dropped : ℤ
exit_event_stream_dropped = pos 22

abbrev pub err_prefix_subdomain_busy : String
err_prefix_subdomain_busy = "subdomain is busy:"

abbrev pub err_prefix_cname_busy : String
err_prefix_cname_busy = "cname is busy:"

abbrev pub err_prefix_tunnels_limit_reached : String
err_prefix_tunnels_limit_reached = "tunnels limit reached for"

abbrev pub err_prefix_auth_failed : String
err_prefix_auth_failed = "authentication failed"

abbrev pub err_prefix_invalid_subdomain : String
err_prefix_invalid_subdomain = "invalid subdomain"

abbrev pub err_prefix_invite_only : String
err_prefix_invite_only = "jprq is now invite-only service"
