-- ===== src/Controller/Conditions/Told.antt =====
-- internal/controller/jprqtunnel_controller.go, `setNotReady` and the calls of SetStatusCondition: what the
-- conditions tell.
use jprq_bek.Base.{◌≡◌, refl, ◌∙◌, Bool, true, false, some, List, Result, ok, err, if◌then◌else◌}
use jprq_bek.Api.{Phase, active, Condition, ConditionType, ConditionStatus, cond_true, cond_false}
use jprq_bek.Controller.Run.{Run, M, Outcome, done, error, panic, lift, ◌>>=◌, continue_with}
use jprq_bek.Controller.Ends.{Ends}
use jprq_bek.Controller.Conditions.{SetCondition, same_type, find_condition, KeepsConditions}

abbrev pub status_of : Bool → ConditionStatus
status_of true = cond_true
status_of false = cond_false

abbrev pub is_active : Phase → Bool
is_active active = true
is_active _ = false

-- The condition of this type is there, and is true or false.
pub record Tells (cs : List Condition) (t : ConditionType) (b : Bool) : Type 0 where
  pub held : Condition
  pub is_held : find_condition t cs ≡ some held
  pub status : held.status ≡ status_of b

module _ (set : SetCondition) (keeps : KeepsConditions set) where
  pub Tells-set :
      (c : Condition) (cs : List Condition) (b : Bool)
      → c.status ≡ status_of b
      → Tells (set c cs) c.type_of b
  Tells-set c cs b e =
      let said = keeps.sets c cs in
      record { held = said.held; is_held = said.is_held; status = said.same_status ∙ e }

  pub Tells-kept :
      (c : Condition) (cs : List Condition) (t : ConditionType) (b : Bool)
      → same_type c.type_of t ≡ false
      → Tells cs t b
      → Tells (set c cs) t b
  Tells-kept c cs t b other told =
      let said =
        keeps.keeps_others c (record told.held { type_of = t }) cs other
          (record {
            held = told.held;
            is_held = told.is_held;
            same_status = refl;
            same_generation = refl;
            same_reason = refl;
            same_message = refl;
          }) in
      record { held = said.held; is_held = said.is_held; status = said.same_status ∙ told.status }

abbrev pub WhenDone : {A : Type 0} → (A → Run → Type 0) → Outcome A × Run → Type 0
WhenDone P (done a, s) = P a s
WhenDone P (error e, s) = Unit
WhenDone P (panic, s) = Unit

-- A value satisfies P with the state that it leaves.
pub record Done {A : Type 0} (P : A → Run → Type 0) (o : Outcome A × Run) : Type 0 where
  pub holds : WhenDone P o

pub Done-any : {A : Type 0} (o : Outcome A × Run) → Done (λ a s. Unit) o
Done-any (done a, s) = record { holds = tt }
Done-any (error e, s) = record { holds = tt }
Done-any (panic, s) = record { holds = tt }

module _ {A : Type 0} {P : A → Run → Type 0} where
  pub Done-if :
      (b : Bool) (m n : M A) (s : Run)
      → (b ≡ true → Done P (m s))
      → (b ≡ false → Done P (n s))
      → Done P ((if b then m else n) s)
  Done-if true m n s h k = h refl
  Done-if false m n s h k = k refl

  pub Done-if_then :
      {B : Type 0} (b : Bool) (m n : M B) (k : B → M A) (s : Run)
      → Done P ((m >>= k) s)
      → Done P ((n >>= k) s)
      → Done P (((if b then m else n) >>= k) s)
  Done-if_then true m n k s h j = h
  Done-if_then false m n k s h j = j

  pub Done-lift :
      {B : Type 0} (r : Result B) (k : B → M A) (s : Run)
      → ((b : B) → Done P (k b s))
      → Done P ((lift r >>= k) s)
  Done-lift (ok b) k s h = h b
  Done-lift (err x) k s h = record { holds = tt }

  pub Done-continue :
      {B : Type 0} {Q : B → Run → Type 0} (o : Outcome B × Run) (k : B → M A)
      → Done Q o
      → ((b : B) (s : Run) → Q b s → Done P (k b s))
      → Done P (continue_with o k)
  Done-continue (done b, s) k q j = j b s q.holds
  Done-continue (error e, s) k q j = record { holds = tt }
  Done-continue (panic, s) k q j = record { holds = tt }

pub Done-both :
    {A : Type 0} {P Q : A → Run → Type 0} (o : Outcome A × Run)
    → Done P o
    → Done Q o
    → Done (λ a s. P a s × Q a s) o
Done-both (done a, s) p q = record { holds = (p.holds, q.holds) }
Done-both (error e, s) p q = record { holds = tt }
Done-both (panic, s) p q = record { holds = tt }

pub Ends-Done :
    {A : Type 0} {P : A → Run → Type 0} {E : Run → Type 0} (o : Outcome A × Run)
    → Ends P E o
    → Done P o
Ends-Done (done a, s) p = record { holds = p.holds }
Ends-Done (error e, s) p = record { holds = tt }
Ends-Done (panic, s) p = record { holds = tt }

-- One value for each piece of evidence.
pub Done-each :
    {A B : Type 0} {P : B → A → Run → Type 0} (X : B → Type 0) (o : Outcome A × Run)
    → ((b : B) → X b → Done (P b) o)
    → Done (λ a s. (b : B) → X b → P b a s) o
Done-each X (done a, s) h = record { holds = λ b x. (h b x).holds }
Done-each X (error e, s) h = record { holds = tt }
Done-each X (panic, s) h = record { holds = tt }

pub Done-mono :
    {A : Type 0} {P Q : A → Run → Type 0} (o : Outcome A × Run)
    → ((a : A) (s : Run) → P a s → Q a s)
    → Done P o
    → Done Q o
Done-mono (done a, s) h p = record { holds = h a s p.holds }
Done-mono (error e, s) h p = record { holds = tt }
Done-mono (panic, s) h p = record { holds = tt }
