-- ===== src/Api/Enums.antt =====
-- api/v1alpha1/jprqtunnel_types.go: the string constants of the API, as enumerations. The zero value
-- of a Go string is a constructor too where the program can meet it.
use jprq_bek.Base.{Bool, true, false, String}

-- `Phase…`; `no_phase` is "".
pub data Phase : Type 0 where
  no_phase pending active degraded failed : Phase

-- `Condition…`
pub data ConditionType : Type 0 where
  ready backend_ready token_ready : ConditionType

-- `metav1.ConditionTrue` and its companions.
pub data ConditionStatus : Type 0 where
  cond_true cond_false cond_unknown : ConditionStatus

-- `Reason…`; `no_reason` is "".
pub data Reason : Type 0 where
  no_reason : Reason
  secret_not_found secret_key_not_found empty_token token_found : Reason
  service_not_found port_not_resolvable no_ready_endpoints endpoints_ready : Reason
  tunnel_active pod_not_ready pod_pending : Reason
  subdomain_busy cname_busy account_tunnel_limit_reached : Reason
  auth_failed not_allowlisted invalid_subdomain : Reason
  agent_exited : Reason

-- `Collision…`; `no_collision` is "".
pub data CollisionBehavior : Type 0 where
  no_collision collision_fail collision_retry collision_add_suffix : CollisionBehavior

abbrev pub is_failed : Phase → Bool
is_failed failed = true
is_failed _ = false

abbrev pub is_retry : CollisionBehavior → Bool
is_retry collision_retry = true
is_retry _ = false

abbrev pub is_subdomain_busy : Reason → Bool
is_subdomain_busy subdomain_busy = true
is_subdomain_busy _ = false

-- The texts of the constants.
unfoldable pub reason_text : Reason → String
reason_text no_reason = ""
reason_text secret_not_found = "SecretNotFound"
reason_text secret_key_not_found = "SecretKeyNotFound"
reason_text empty_token = "EmptyToken"
reason_text token_found = "TokenFound"
reason_text service_not_found = "ServiceNotFound"
reason_text port_not_resolvable = "PortNotResolvable"
reason_text no_ready_endpoints = "NoReadyEndpoints"
reason_text endpoints_ready = "EndpointsReady"
reason_text tunnel_active = "TunnelActive"
reason_text pod_not_ready = "PodNotReady"
reason_text pod_pending = "PodPending"
reason_text subdomain_busy = "SubdomainBusy"
reason_text cname_busy = "CNAMEBusy"
reason_text account_tunnel_limit_reached = "AccountTunnelLimitReached"
reason_text auth_failed = "AuthFailed"
reason_text not_allowlisted = "NotAllowlisted"
reason_text invalid_subdomain = "InvalidSubdomain"
reason_text agent_exited = "AgentExited"
