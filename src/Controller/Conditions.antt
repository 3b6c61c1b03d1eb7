-- ===== src/Controller/Conditions.antt =====
-- `apimeta.SetStatusCondition`: what the controller relies on, at any time of the clock.
pub mod Told
pub mod Gathering
pub mod Settling
pub mod Honest
use jprq_bek.Base.{
  pos, ℕ, ℤ, String, ◌≡◌, ◌≢◌, Bool, true, false, List, [], ◌∷◌, Option, none, some, if◌then◌else◌,
}
use jprq_bek.Api.{
  Condition, ConditionType, ConditionStatus, Reason, ready, backend_ready, token_ready,
}

-- `SetStatusCondition` at some time.
abbrev pub SetCondition : Type 0
SetCondition = Condition → List Condition → List Condition

-- A condition, as the controller sets it.
abbrev pub condition : ConditionType → ConditionStatus → Reason → String → Condition
condition type_of status reason message = record {
  type_of = type_of;
  status = status;
  observed_generation = pos 0;
  last_transition_time = 0;
  reason = reason;
  message = message;
}

abbrev pub same_type : ConditionType → ConditionType → Bool
same_type ready ready = true
same_type backend_ready backend_ready = true
same_type token_ready token_ready = true
same_type _ _ = false

-- The first condition of a type.
unfoldable pub find_condition : ConditionType → List Condition → Option Condition
find_condition t [] = none
find_condition t (c ∷ cs) = if same_type c.type_of t then some c else find_condition t cs

-- The conditions say the same as this one, but for the time of the last transition.
pub record Says (cs : List Condition) (c : Condition) : Type 0 where
  pub held : Condition
  pub is_held : find_condition c.type_of cs ≡ some held
  pub same_status : held.status ≡ c.status
  pub same_generation : held.observed_generation ≡ c.observed_generation
  pub same_reason : held.reason ≡ c.reason
  pub same_message : held.message ≡ c.message

-- The documented behaviour: a condition is set, the others stay, and setting what is said already
-- changes nothing.
pub record KeepsConditions (set : SetCondition) : Type 0 where
  pub sets : (c : Condition) (cs : List Condition) → Says (set c cs) c
  pub keeps_others :
      (c d : Condition) (cs : List Condition)
      → same_type c.type_of d.type_of ≡ false
      → Says cs d
      → Says (set c cs) d
  pub changes_nothing : (c : Condition) (cs : List Condition) → Says cs c → set c cs ≡ cs
