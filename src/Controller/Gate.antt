-- ===== src/Controller/Gate.antt =====
-- internal/controller/jprqtunnel_controller.go: the outcome of a precondition.
use jprq_bek.Base.{String, Bool, true, false}
use jprq_bek.Api.{Reason, no_reason, ConditionType, cond_false}
use jprq_bek.Kube.{External}
use jprq_bek.Controller.Run.{M, pure, ◌>>◌, set_condition}

-- `gate`; `passed` is its `ok`.
pub record Gate : Type 0 where
  pub passed : Bool
  pub reason : Reason
  pub message : String

-- `gate{ok: true}`
abbrev pub open_gate : Gate
open_gate = record { passed = true; reason = no_reason; message = "" }

abbrev pub shut_gate : Reason → String → Gate
shut_gate reason message = record { passed = false; reason = reason; message = message }

-- The closure `fail` of both preconditions.
abbrev pub fail_gate : External → ConditionType → Reason → String → M Gate
fail_gate ext type_of reason message = do
  set_condition ext type_of cond_false reason message
  pure (shut_gate reason message)
