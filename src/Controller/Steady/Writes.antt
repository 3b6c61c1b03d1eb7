-- ===== src/Controller/Steady/Writes.antt =====
-- The writes of `reconcile` to the fields of the status, each to a field of its own.
use jprq_bek.Base.{
  ℕ, suc, ◌<◌, ◌≤◌, ℤ, String, ◌≡◌, refl, sym, ap, ◌∙◌, false, List, [], ◌∷◌, ◌++◌, All, some,
  arith,
}
use jprq_bek.Api.{
  JprqTunnelStatus, Phase, Condition, ConditionType, ready, backend_ready, token_ready,
}
use jprq_bek.Controller.Conditions.{same_type, SetCondition, Says, KeepsConditions}

pub data Write : Type 0 where
  to_pod_name : String → Write
  to_restart_count : ℤ → Write
  to_condition : Condition → Write
  to_backend_address : String → Write
  to_last_exit_code : ℤ → Write
  to_last_failure_message : String → Write
  to_phase : Phase → Write
  to_url : String → Write

abbrev pub condition_slot : ConditionType → ℕ
condition_slot token_ready = 3
condition_slot backend_ready = 4
condition_slot ready = 10

-- A number for each field, in the order in which `reconcile` may write them.
abbrev pub slot : Write → ℕ
slot (to_pod_name x) = 1
slot (to_restart_count x) = 2
slot (to_condition c) = condition_slot c.type_of
slot (to_backend_address x) = 5
slot (to_last_exit_code x) = 6
slot (to_last_failure_message x) = 7
slot (to_phase x) = 8
slot (to_url x) = 9

module _ (set : SetCondition) where
  abbrev pub apply : Write → JprqTunnelStatus → JprqTunnelStatus
  apply (to_pod_name x) st = record st { pod_name = x }
  apply (to_restart_count x) st = record st { restart_count = x }
  apply (to_condition c) st = record st { conditions = set c st.conditions }
  apply (to_backend_address x) st = record st { backend_address = x }
  apply (to_last_exit_code x) st = record st { last_exit_code = some x }
  apply (to_last_failure_message x) st = record st { last_failure_message = x }
  apply (to_phase x) st = record st { phase = x }
  apply (to_url x) st = record st { url = x }

  abbrev pub apply_all : List Write → JprqTunnelStatus → JprqTunnelStatus
  apply_all [] st = st
  apply_all (w ∷ ws) st = apply_all ws (apply w st)

-- The status holds already what is written.
abbrev Holds : Write → JprqTunnelStatus → Type 0
Holds (to_pod_name x) st = st.pod_name ≡ x
Holds (to_restart_count x) st = st.restart_count ≡ x
Holds (to_condition c) st = Says st.conditions c
Holds (to_backend_address x) st = st.backend_address ≡ x
Holds (to_last_exit_code x) st = st.last_exit_code ≡ some x
Holds (to_last_failure_message x) st = st.last_failure_message ≡ x
Holds (to_phase x) st = st.phase ≡ x
Holds (to_url x) st = st.url ≡ x

other_slot :
    (c d : Condition)
    → condition_slot d.type_of < condition_slot c.type_of
    → same_type c.type_of d.type_of ≡ false
other_slot c d l = ground arith

kept :
    (set : SetCondition) (v w : Write) (st : JprqTunnelStatus)
    → KeepsConditions set
    → slot v < slot w
    → Holds v st
    → Holds v (apply set w st)
kept set (to_pod_name x) w st k l h = ground (arith, h)
kept set (to_restart_count x) w st k l h = ground (arith, h)
kept set (to_backend_address x) w st k l h = ground (arith, h)
kept set (to_last_exit_code x) w st k l h = ground (arith, h)
kept set (to_last_failure_message x) w st k l h = ground (arith, h)
kept set (to_phase x) w st k l h = ground (arith, h)
kept set (to_url x) w st k l h = ground (arith, h)
kept set (to_condition d) (to_condition c) st k l h =
    k.keeps_others c d st.conditions (other_slot c d l) h
kept set (to_condition d) (to_pod_name x) st k l h = h
kept set (to_condition d) (to_restart_count x) st k l h = h
kept set (to_condition d) (to_backend_address x) st k l h = h
kept set (to_condition d) (to_last_exit_code x) st k l h = h
kept set (to_condition d) (to_last_failure_message x) st k l h = h
kept set (to_condition d) (to_phase x) st k l h = h
kept set (to_condition d) (to_url x) st k l h = h

-- Increasing slots from low on, and below high.
abbrev pub Ordered : ℕ → ℕ → List Write → Type 0
Ordered low high [] = low ≤ high
Ordered low high (w ∷ ws) = (low ≤ slot w) × Ordered (suc (slot w)) high ws

kept_all :
    (set : SetCondition) (v : Write) (low high : ℕ) (ws : List Write) (st : JprqTunnelStatus)
    → KeepsConditions set
    → slot v < low
    → Ordered low high ws
    → Holds v st
    → Holds v (apply_all set ws st)
kept_all set v low high [] st k l o h = h
kept_all set v low high (w ∷ ws) st k l (o, os) h =
    kept_all set v (suc (slot w)) high ws (apply set w st) k (omega (arith, l, o)) os
      (kept set v w st k (omega (arith, l, o)) h)

apply-Holds :
    (set : SetCondition) (w : Write) (st : JprqTunnelStatus)
    → KeepsConditions set
    → Holds w (apply set w st)
apply-Holds set (to_pod_name x) st k = refl
apply-Holds set (to_restart_count x) st k = refl
apply-Holds set (to_condition c) st k = k.sets c st.conditions
apply-Holds set (to_backend_address x) st k = refl
apply-Holds set (to_last_exit_code x) st k = refl
apply-Holds set (to_last_failure_message x) st k = refl
apply-Holds set (to_phase x) st k = refl
apply-Holds set (to_url x) st k = refl

apply_all-Holds :
    (set : SetCondition) (low high : ℕ) (ws : List Write) (st : JprqTunnelStatus)
    → KeepsConditions set
    → Ordered low high ws
    → All (λ w. Holds w (apply_all set ws st)) ws
apply_all-Holds set low high [] st k o = tt
apply_all-Holds set low high (w ∷ ws) st k (o, os) = (
  kept_all set w (suc (slot w)) high ws (apply set w st) k (omega arith) os
      (apply-Holds set w st k),
  apply_all-Holds set (suc (slot w)) high ws (apply set w st) k os,
)

-- A write of what is there.
idle :
    (set : SetCondition) (w : Write) (st : JprqTunnelStatus)
    → KeepsConditions set
    → Holds w st
    → apply set w st ≡ st
idle set (to_pod_name x) st k h = λ i. record st { pod_name = sym h i }
idle set (to_restart_count x) st k h = λ i. record st { restart_count = sym h i }
idle set (to_condition c) st k h =
    λ i. record st { conditions = k.changes_nothing c st.conditions h i }
idle set (to_backend_address x) st k h = λ i. record st { backend_address = sym h i }
idle set (to_last_exit_code x) st k h = λ i. record st { last_exit_code = sym h i }
idle set (to_last_failure_message x) st k h = λ i. record st { last_failure_message = sym h i }
idle set (to_phase x) st k h = λ i. record st { phase = sym h i }
idle set (to_url x) st k h = λ i. record st { url = sym h i }

apply_all_idle :
    (set : SetCondition) (ws : List Write) (st : JprqTunnelStatus)
    → KeepsConditions set
    → All (λ w. Holds w st) ws
    → apply_all set ws st ≡ st
apply_all_idle set [] st k h = refl
apply_all_idle set (w ∷ ws) st k (h, hs) =
    ap (apply_all set ws) (idle set w st k h) ∙ apply_all_idle set ws st k hs

-- To write the same again, at any time, changes nothing.
pub apply_all_twice :
    (set again : SetCondition) (low high : ℕ) (ws : List Write) (st : JprqTunnelStatus)
    → KeepsConditions set
    → KeepsConditions again
    → Ordered low high ws
    → apply_all again ws (apply_all set ws st) ≡ apply_all set ws st
apply_all_twice set again low high ws st k l o =
    apply_all_idle again ws (apply_all set ws st) l (apply_all-Holds set low high ws st k o)

pub apply_all-append :
    (set : SetCondition) (v w : List Write) (st : JprqTunnelStatus)
    → apply_all set (v ++ w) st ≡ apply_all set w (apply_all set v st)
apply_all-append set [] w st = refl
apply_all-append set (x ∷ v) w st = apply_all-append set v w (apply set x st)

-- No write is to the assigned subdomain.
pub apply_all-assigned :
    (set : SetCondition) (ws : List Write) (st : JprqTunnelStatus)
    → (apply_all set ws st).assigned_subdomain ≡ st.assigned_subdomain
apply_all-assigned set [] st = refl
apply_all-assigned set (w ∷ ws) st = apply_all-assigned set ws (apply set w st) ∙ ground (arith, w)

Ordered-later :
    (low mid high : ℕ) (w : List Write) → low ≤ mid → Ordered mid high w → Ordered low high w
Ordered-later low mid high [] l o = omega (arith, l, o)
Ordered-later low mid high (x ∷ w) l (o, os) = (omega (arith, l, o), os)

pub Ordered-less :
    (low mid high : ℕ) (w : List Write) → mid ≤ high → Ordered low mid w → Ordered low high w
Ordered-less low mid high [] l o = omega (arith, l, o)
Ordered-less low mid high (x ∷ w) l (o, os) = (o, Ordered-less (suc (slot x)) mid high w l os)

pub Ordered-append :
    (low mid high : ℕ) (v w : List Write)
    → Ordered low mid v
    → Ordered mid high w
    → Ordered low high (v ++ w)
Ordered-append low mid high [] w o p = Ordered-later low mid high w o p
Ordered-append low mid high (x ∷ v) w (o, os) p =
    (o, Ordered-append (suc (slot x)) mid high v w os p)
