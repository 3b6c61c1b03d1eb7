-- ===== src/Controller/Steady/Uniform.antt =====
-- Steps of a reconciliation that do the same from every status and at every time.
use mathlib.Core.Path.{subst}
use mathlib.Core.List.{append-eq-nil_iff}
use jprq_bek.Base.{
  ℕ, ◌≤◌, String, ◌≡◌, ◌≢◌, refl, sym, ◌∙◌, Bool, true, false, List, [], ◌∷◌, ◌++◌, Result,
  if◌then◌else◌,
}
use jprq_bek.Kube.{HttpAnswer}
use jprq_bek.JprqConfig.{domain}
use jprq_bek.Controller.Conditions.{SetCondition}
use jprq_bek.Controller.Run.{Env, Run, M, Outcome, done, Call, call, ◌>>=◌}
use jprq_bek.Controller.Calls.{pod_writes, pod_writes-append}
use jprq_bek.Controller.Steady.Log.{cluster_writes, cluster_writes-more}
use jprq_bek.Controller.Steady.Writes.{Write, apply_all, Ordered, apply_all-assigned}

-- The same world, at another time.
abbrev pub at_time : Env → SetCondition → Env
at_time env set = record env { ext = record env.ext { set_status_condition = set } }

-- A step, by the time at which it runs.
abbrev pub Timed : Type 0 → Type 0
Timed A = SetCondition → M A

-- A pod has been written.
abbrev pub Moves : {A : Type 0} → Outcome A × Run → Type 0
Moves r = pod_writes r.1.calls ≢ []

pub Moves-append : (l m : List Call) → pod_writes l ≢ [] → pod_writes (l ++ m) ≢ []
Moves-append l m h e = h (append-eq-nil_iff.0 (sym (pod_writes-append l m) ∙ e)).0

pub Moves-last :
    (l : List Call) (c : Call) → pod_writes (c ∷ []) ≢ [] → pod_writes (l ++ c ∷ []) ≢ []
Moves-last l c h e = h (append-eq-nil_iff.0 (sym (pod_writes-append l (c ∷ [])) ∙ e)).1

pub Moves-if :
    {A : Type 0} (b : Bool) (m n : M A) (s : Run)
    → (b ≡ true → Moves (m s))
    → (b ≡ false → Moves (n s))
    → Moves ((if b then m else n) s)
Moves-if true m n s h k = h refl
Moves-if false m n s h k = k refl

pub Moves-if_then :
    {A B : Type 0} (b : Bool) (m n : M A) (k : A → M B) (s : Run)
    → Moves ((m >>= k) s)
    → Moves ((n >>= k) s)
    → Moves (((if b then m else n) >>= k) s)
Moves-if_then true m n k s h j = h
Moves-if_then false m n k s h j = j

-- The subdomain that is assigned, and what a lookup of the domain answers.
module _ (assigned : String) (get : String → HttpAnswer) (answer : Result String) where
  abbrev pub Knows : Run → Type 0
  Knows s = (s.status.assigned_subdomain ≡ assigned) × ((domain get s.resolver).0 ≡ answer)

  -- A run that ended so, and wrote this to the status.
  pub record Ran {A : Type 0} (set : SetCondition) (o : Outcome A) (ws : List Write) (s : Run)
      (r : Outcome A × Run) : Type 0 where
    pub ended : r.0 ≡ o
    pub wrote : r.1.status ≡ apply_all set ws s.status
    pub knows : Knows r.1
    pub quiet : cluster_writes r.1.calls ≡ cluster_writes s.calls

  pub record Uniform {A : Type 0} (low high : ℕ) (m : Timed A) : Type 0 where
    pub outcome : Outcome A
    pub writes : List Write
    pub ordered : Ordered low high writes
    pub runs : (set : SetCondition) (s : Run) → Knows s → Ran set outcome writes s (m set s)

  -- A step that is uniform, or that writes a pod.
  pub data Course {A : Type 0} (low high : ℕ) (m : Timed A) : Type 0 where
    steady : Uniform low high m → Course low high m
    moved : ((set : SetCondition) (s : Run) → Knows s → Moves (m set s)) → Course low high m

  -- A step that computes to its outcome and its writes.
  pub leaf :
      {A : Type 0} {low high : ℕ} {m : Timed A} (o : Outcome A) (ws : List Write)
      → Ordered low high ws
      → ((set : SetCondition) (s : Run)
          → m set s ≡ (o, record s { status = apply_all set ws s.status }))
      → Uniform low high m
  leaf o ws ordered e = record {
    outcome = o;
    writes = ws;
    ordered = ordered;
    runs = λ set s knows. subst (Ran set o ws s) (sym (e set s)) (record {
      ended = refl;
      wrote = refl;
      knows = (apply_all-assigned set ws s.status ∙ knows.0, knows.1);
      quiet = refl;
    });
  }

  -- A call that changes nothing.
  pub asked :
      {low high : ℕ} (c : Call)
      → low ≤ high
      → cluster_writes (c ∷ []) ≡ []
      → Uniform low high (λ set. call c)
  asked c ordered idle = record {
    outcome = done tt;
    writes = [];
    ordered = ordered;
    runs = λ set s knows. record {
      ended = refl;
      wrote = refl;
      knows = knows;
      quiet = cluster_writes-more s.calls (c ∷ []) idle;
    };
  }

  module _ {A : Type 0} (low high : ℕ) (m n : Timed A) where
    pub Uniform-if :
        (b : Bool)
        → Uniform low high m
        → Uniform low high n
        → Uniform low high (λ set. if b then m set else n set)
    Uniform-if true u v = u
    Uniform-if false u v = v

    pub Uniform-else :
        (b : Bool)
        → b ≡ false
        → Uniform low high n
        → Uniform low high (λ set. if b then m set else n set)
    Uniform-else true h u = cc
    Uniform-else false h u = u

    -- Steps that do the same wherever the subdomain and the domain are the known ones.
    pub Course-cong :
        ((set : SetCondition) (s : Run) → Knows s → m set s ≡ n set s)
        → Course low high n
        → Course low high m
    Course-cong e (steady u) = steady (record {
      outcome = u.outcome;
      writes = u.writes;
      ordered = u.ordered;
      runs = λ set s k. subst (Ran set u.outcome u.writes s) (sym (e set s k)) (u.runs set s k);
    })
    Course-cong e (moved f) = moved λ set s k. subst Moves (sym (e set s k)) (f set s k)

    pub Course-if :
        (b : Bool)
        → (b ≡ true → Course low high m)
        → (b ≡ false → Course low high n)
        → Course low high (λ set. if b then m set else n set)
    Course-if true u v = u refl
    Course-if false u v = v refl
