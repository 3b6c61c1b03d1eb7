-- ===== src/Controller/Tests/Libraries.antt =====
-- k8s.io/apimachinery: a `SetStatusCondition` and a `DeepEqual`, for the tests of internal/controller.
use mathlib.Core.Bool.{true≢false}
use text.Mathlib.TextEquality.{eq_iff}
use native.Mathlib.Decide.{ℕ_discrete}
use mathlib.Core.Option.{some-injective, none-ne-some}
use mathlib.Core.Path.{subst}
use jprq_bek.Base.{
  ℕ, ◌≡◌, refl, sym, ap, ◌∙◌, Bool, Bool-cases, inl, inr, true, false, List, [], ◌∷◌, none, some,
  String, ◌==◌, arith, if◌then◌else◌,
}
use jprq_bek.Api.{
  Condition, ConditionType, ConditionStatus, JprqTunnelStatus, cond_true, cond_false, cond_unknown,
}
use jprq_bek.Controller.Conditions.{same_type, find_condition, Says, KeepsConditions, SetCondition}

string_discrete : Discrete String
string_discrete s t = elim (Bool-cases (s == t)) [
  | inl e ↦ yes ((eq_iff s t).0 e)
  | inr d ↦ no (λ e. true≢false (sym ((eq_iff s t).1 e) ∙ d))
]

pub status_discrete : Discrete JprqTunnelStatus
status_discrete = hlevel (ℕ_discrete, string_discrete)

abbrev is_yes : {A : Type 0} → Dec A → Bool
is_yes (yes a) = true
is_yes (no n) = false

unfoldable pub same_statuses : JprqTunnelStatus → JprqTunnelStatus → Bool
same_statuses st st' = is_yes (status_discrete st st')

is_yes-true : {A : Type 0} (d : Dec A) → A → is_yes d ≡ true
is_yes-true (yes a) h = refl
is_yes-true (no n) h = absurd (n h)

is_yes-holds : {A : Type 0} (d : Dec A) → is_yes d ≡ true → A
is_yes-holds (yes a) h = a
is_yes-holds (no n) h = cc

pub same_statuses_refl : (st : JprqTunnelStatus) → same_statuses st st ≡ true
unfolding same_statuses
same_statuses_refl st = is_yes-true (status_discrete st st) refl

pub same_statuses-generation :
    (st st' : JprqTunnelStatus)
    → same_statuses st st' ≡ true
    → st.observed_generation ≡ st'.observed_generation
unfolding same_statuses
same_statuses-generation st st' h =
    ap (λ s. s.observed_generation) (is_yes-holds (status_discrete st st') h)

abbrev same_status : ConditionStatus → ConditionStatus → Bool
same_status cond_true cond_true = true
same_status cond_false cond_false = true
same_status cond_unknown cond_unknown = true
same_status _ _ = false

same_status_refl : (a b : ConditionStatus) → a ≡ b → same_status a b ≡ true
same_status_refl a b h = ground (arith, h)

same_type-equal : (a b : ConditionType) → same_type a b ≡ true → a ≡ b
same_type-equal a b h = ground (arith, h)

same_type_refl : (a : ConditionType) → same_type a a ≡ true
same_type_refl a = ground arith

find-here :
    (t : ConditionType) (d : Condition) (cs : List Condition)
    → same_type d.type_of t ≡ true
    → find_condition t (d ∷ cs) ≡ some d
unfolding find_condition
find-here t d cs h = rw h

find-there :
    (t : ConditionType) (d : Condition) (cs : List Condition)
    → same_type d.type_of t ≡ false
    → find_condition t (d ∷ cs) ≡ find_condition t cs
unfolding find_condition
find-there t d cs h = rw h

unfound : (c held : Condition) → find_condition c.type_of [] ≡ some held → none ≡ some held
unfolding find_condition
unfound c held h = h

-- Lists in which the same condition is found.
Says-found :
    (c : Condition) (cs ds : List Condition)
    → find_condition c.type_of ds ≡ find_condition c.type_of cs
    → Says cs c
    → Says ds c
Says-found c cs ds e h = record {
  held = h.held;
  is_held = e ∙ h.is_held;
  same_status = h.same_status;
  same_generation = h.same_generation;
  same_reason = h.same_reason;
  same_message = h.same_message;
}

merge_equal :
    (c d : Condition) (now : ℕ)
    → c.type_of ≡ d.type_of
    → c.status ≡ d.status
    → c.observed_generation ≡ d.observed_generation
    → c.reason ≡ d.reason
    → c.message ≡ d.message
    → record c {
      last_transition_time = if same_status d.status c.status then d.last_transition_time else now;
    }
      ≡ d
merge_equal c d now t s g r m i = record {
  type_of = t i;
  status = s i;
  observed_generation = g i;
  last_transition_time =
      (ap (λ b. if b then d.last_transition_time else now)
          (same_status_refl d.status c.status (sym s)))
        i;
  reason = r i;
  message = m i;
}

-- The time of the last transition is set where the status changes.
module _ (now : ℕ) where
  abbrev merged : Condition → Condition → Condition
  merged c d = record c {
    last_transition_time = if same_status d.status c.status then d.last_transition_time else now;
  }

  unfoldable pub set_condition_at : SetCondition
  set_condition_at c [] = record c { last_transition_time = now } ∷ []
  set_condition_at c (d ∷ cs) =
      let rest = set_condition_at c cs in
      if same_type d.type_of c.type_of then merged c d ∷ cs else d ∷ rest

  set-here :
      (c d : Condition) (cs : List Condition)
      → same_type d.type_of c.type_of ≡ true
      → set_condition_at c (d ∷ cs) ≡ merged c d ∷ cs
  unfolding set_condition_at
  set-here c d cs h = rw h

  set-there :
      (c d : Condition) (cs : List Condition)
      → same_type d.type_of c.type_of ≡ false
      → set_condition_at c (d ∷ cs) ≡ d ∷ set_condition_at c cs
  unfolding set_condition_at
  set-there c d cs h = rw h

  set_condition_at-Says : (c : Condition) (cs : List Condition) → Says (set_condition_at c cs) c
  unfolding set_condition_at
  set_condition_at-Says c [] = record {
    held = record c { last_transition_time = now };
    is_held =
        find-here c.type_of (record c { last_transition_time = now }) [] (same_type_refl c.type_of);
    same_status = refl;
    same_generation = refl;
    same_reason = refl;
    same_message = refl;
  }
  set_condition_at-Says c (d ∷ cs) = elim (Bool-cases (same_type d.type_of c.type_of)) [
    | inl e ↦
        subst (λ l. Says l c) (sym (set-here c d cs e))
          (record {
            held = merged c d;
            is_held = find-here c.type_of (merged c d) cs (same_type_refl c.type_of);
            same_status = refl;
            same_generation = refl;
            same_reason = refl;
            same_message = refl;
          })
    | inr e ↦
        subst (λ l. Says l c) (sym (set-there c d cs e))
          (Says-found c (set_condition_at c cs) (d ∷ set_condition_at c cs)
            (find-there c.type_of d (set_condition_at c cs) e) (set_condition_at-Says c cs))
  ]

  set_condition_at-others :
      (c d : Condition) (cs : List Condition)
      → same_type c.type_of d.type_of ≡ false
      → Says cs d
      → Says (set_condition_at c cs) d
  set_condition_at-others c d [] other h = absurd (none-ne-some h.held (unfound d h.held h.is_held))
  set_condition_at-others c d (x ∷ cs) other h = elim (Bool-cases (same_type x.type_of c.type_of)) [
    | inl e ↦
        let apart =
          ap (λ t. same_type t d.type_of) (same_type-equal x.type_of c.type_of e) ∙ other in
        subst (λ l. Says l d) (sym (set-here c x cs e))
          (Says-found d (x ∷ cs) (merged c x ∷ cs)
            (find-there d.type_of (merged c x) cs other ∙ sym (find-there d.type_of x cs apart)) h)
    | inr e ↦
        subst (λ l. Says l d) (sym (set-there c x cs e))
          (elim (Bool-cases (same_type x.type_of d.type_of)) [
            | inl here ↦
                Says-found d (x ∷ cs) (x ∷ set_condition_at c cs)
                  (find-here d.type_of x (set_condition_at c cs) here
                    ∙ sym (find-here d.type_of x cs here))
                  h
            | inr there ↦
                Says-found d (set_condition_at c cs) (x ∷ set_condition_at c cs)
                  (find-there d.type_of x (set_condition_at c cs) there)
                  (set_condition_at-others c d cs other
                    (Says-found d (x ∷ cs) cs (sym (find-there d.type_of x cs there)) h))
          ])
  ]

  merged-same :
      (c d : Condition) (cs : List Condition)
      → same_type d.type_of c.type_of ≡ true
      → Says (d ∷ cs) c
      → merged c d ≡ d
  merged-same c d cs e h =
      let held = some-injective d h.held (sym (find-here c.type_of d cs e) ∙ h.is_held) in
      let status = ap (λ x. x.status) held ∙ h.same_status in
      merge_equal c d now (sym (same_type-equal d.type_of c.type_of e)) (sym status)
        (sym (ap (λ x. x.observed_generation) held ∙ h.same_generation))
        (sym (ap (λ x. x.reason) held ∙ h.same_reason))
        (sym (ap (λ x. x.message) held ∙ h.same_message))

  set_condition_at-nothing :
      (c : Condition) (cs : List Condition) → Says cs c → set_condition_at c cs ≡ cs
  set_condition_at-nothing c [] h = absurd (none-ne-some h.held (unfound c h.held h.is_held))
  set_condition_at-nothing c (d ∷ cs) h = elim (Bool-cases (same_type d.type_of c.type_of)) [
    | inl e ↦ set-here c d cs e ∙ ap (λ x. x ∷ cs) (merged-same c d cs e h)
    | inr e ↦
        set-there c d cs e
        ∙ ap (λ l. d ∷ l)
            (set_condition_at-nothing c cs
              (Says-found c (d ∷ cs) cs (sym (find-there c.type_of d cs e)) h))
  ]

  pub set_condition_at-KeepsConditions : KeepsConditions set_condition_at
  set_condition_at-KeepsConditions = record {
    sets = set_condition_at-Says;
    keeps_others = set_condition_at-others;
    changes_nothing = set_condition_at-nothing;
  }
