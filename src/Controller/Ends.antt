-- ===== src/Controller/Ends.antt =====
-- Postconditions of the steps of Run.antt, and a rule for each way in which the handlers branch.
use jprq_bek.Base.{◌≡◌, refl, Bool, true, false, Result, ok, err, if◌then◌else◌}
use jprq_bek.Controller.Run.{Run, M, Outcome, done, error, panic, lift, ◌>>=◌, continue_with}

abbrev pub Holds : {A : Type 0} → (A → Run → Type 0) → (Run → Type 0) → Outcome A × Run → Type 0
Holds P E (done a, s) = P a s
Holds P E (error e, s) = E s
Holds P E (panic, s) = ⊥

-- A value satisfies P with the state that it leaves; an error may leave any state that satisfies E; a
-- panic is excluded.
pub record Ends {A : Type 0} (P : A → Run → Type 0) (E : Run → Type 0) (o : Outcome A × Run)
    : Type 0 where
  pub holds : Holds P E o

module _ {A : Type 0} {P : A → Run → Type 0} {E : Run → Type 0} where
  pub Ends-if :
      (b : Bool) (m n : M A) (s : Run)
      → (b ≡ true → Ends P E (m s))
      → (b ≡ false → Ends P E (n s))
      → Ends P E ((if b then m else n) s)
  Ends-if true m n s h k = h refl
  Ends-if false m n s h k = k refl

  -- A branch before the rest.
  pub Ends-if_then :
      {B : Type 0} (b : Bool) (m n : M B) (k : B → M A) (s : Run)
      → (b ≡ true → Ends P E ((m >>= k) s))
      → (b ≡ false → Ends P E ((n >>= k) s))
      → Ends P E (((if b then m else n) >>= k) s)
  Ends-if_then true m n k s h j = h refl
  Ends-if_then false m n k s h j = j refl

  pub Ends-lift :
      {B : Type 0} (r : Result B) (k : B → M A) (s : Run)
      → ((b : B) → r ≡ ok b → Ends P E (k b s))
      → E s
      → Ends P E ((lift r >>= k) s)
  Ends-lift (ok b) k s h e = h b refl
  Ends-lift (err x) k s h e = record { holds = e }

  -- A step, and what may follow it.
  pub Ends-continue :
      {B : Type 0} {Q : B → Run → Type 0} (o : Outcome B × Run) (k : B → M A)
      → Ends Q E o
      → ((b : B) (s : Run) → Q b s → Ends P E (k b s))
      → Ends P E (continue_with o k)
  Ends-continue (done b, s) k q j = j b s q.holds
  Ends-continue (error e, s) k q j = record { holds = q.holds }
  Ends-continue (panic, s) k q j = absurd q.holds

-- A weaker postcondition.
pub Ends-mono :
    {A : Type 0} {P Q : A → Run → Type 0} {E F : Run → Type 0} (o : Outcome A × Run)
    → ((a : A) (s : Run) → P a s → Q a s)
    → ((s : Run) → E s → F s)
    → Ends P E o
    → Ends Q F o
Ends-mono (done a, s) h k p = record { holds = h a s p.holds }
Ends-mono (error e, s) h k p = record { holds = k s p.holds }
Ends-mono (panic, s) h k p = absurd p.holds
