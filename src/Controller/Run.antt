-- ===== src/Controller/Run.antt =====
-- The state of one reconciliation, and the steps from which the handlers of
-- internal/controller/jprqtunnel_controller.go are composed. A step runs on the tunnel's status, which
-- the code changes through a pointer and so keeps on an error, and on the log of the calls.
use jprq_bek.Base.{ℕ, String, Bool, List, [], ◌∷◌, ◌++◌, Result, ok, err, pos}
use jprq_bek.Api.{JprqTunnel, JprqTunnelStatus, ConditionType, ConditionStatus, Reason}
use jprq_bek.Kube.{Pod, External, Answers}
use jprq_bek.JprqConfig.{Resolver}

-- An event for `Recorder.Eventf`: `warning` tells `EventTypeWarning` from `EventTypeNormal`.
pub record Event : Type 0 where
  pub warning : Bool
  pub reason : String
  pub action : String
  pub note : String

-- The calls that leave the process, in the order in which they are made. A call stands in the log also
-- when it is refused.
pub data Call : Type 0 where
  got_tunnel : String → Call
  got_pod : String → String → Call
  got_secret : String → String → Call
  got_service : String → String → Call
  listed_slices : String → String → Call
  created : Pod → Call
  deleted_pod : Pod → Call
  recorded : Event → Call
  fetched : String → Call
  patched : JprqTunnel → Call

-- `JprqTunnelReconciler`, but for its client, and the world that it runs in.
pub record Env : Type 0 where
  pub ext : External
  pub api : Answers
  pub agent_image : String
  pub operator_namespace : String

pub record Run : Type 0 where
  pub status : JprqTunnelStatus
  pub resolver : Resolver
  pub calls : List Call

-- `ctrl.Result`: the seconds of `RequeueAfter`, 0 for none.
pub record Requeue : Type 0 where
  pub requeue_after : ℕ

-- How a step ends: with a value, with an error, or in a nil pointer dereference.
pub data Outcome (A : Type 0) : Type 0 where
  done : A → Outcome A
  error : String → Outcome A
  panic : Outcome A

abbrev pub M : Type 0 → Type 0
M A = Run → Outcome A × Run

abbrev pub pure : {A : Type 0} → A → M A
pure a s = (done a, s)

abbrev pub fail : {A : Type 0} → String → M A
fail e s = (error e, s)

abbrev pub nil_dereference : {A : Type 0} → M A
nil_dereference s = (panic, s)

abbrev pub lift : {A : Type 0} → Result A → M A
lift (ok a) s = (done a, s)
lift (err e) s = (error e, s)

abbrev pub continue_with : {A B : Type 0} → Outcome A × Run → (A → M B) → Outcome B × Run
continue_with (done a, s) f = f a s
continue_with (error e, s) f = (error e, s)
continue_with (panic, s) f = (panic, s)

infixl 5 ◌>>=◌ ◌>>◌
abbrev pub ◌>>=◌ : {A B : Type 0} → M A → (A → M B) → M B
◌>>=◌ m f s = continue_with (m s) f

abbrev pub ◌>>◌ : {B : Type 0} → M (Unit {0}) → M B → M B
m >> k = m >>= λ _. k

abbrev pub call : Call → M (Unit {0})
call c s = (done tt, record s { calls = s.calls ++ c ∷ [] })

abbrev pub update_status : (JprqTunnelStatus → JprqTunnelStatus) → M (Unit {0})
update_status f s = (done tt, record s { status = f s.status })

abbrev pub get_status : M JprqTunnelStatus
get_status s = (done s.status, s)

-- `apimeta.SetStatusCondition(&tunnel.Status.Conditions, metav1.Condition{…})`
abbrev pub set_condition :
    External → ConditionType → ConditionStatus → Reason → String → M (Unit {0})
set_condition ext type_of status reason message = update_status λ st. record st {
  conditions =
      ext.set_status_condition
        (record {
          type_of = type_of;
          status = status;
          observed_generation = pos 0;
          last_transition_time = 0;
          reason = reason;
          message = message;
        })
        st.conditions;
}
