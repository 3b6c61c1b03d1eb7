-- ===== src/Controller/Steady/Sequence.antt =====
-- Steps of a reconciliation, one behind the other.
use mathlib.Core.Path.{subst}
use jprq_bek.Base.{ℕ, ◌≤◌, String, ◌≡◌, refl, sym, ap, ◌∙◌, List, ◌++◌, Result}
use jprq_bek.Kube.{HttpAnswer}
use jprq_bek.Controller.Conditions.{SetCondition}
use jprq_bek.Controller.Run.{Run, M, Outcome, done, error, panic, continue_with, ◌>>=◌}
use jprq_bek.Controller.Steady.Log.{cluster_writes}
use jprq_bek.Controller.Steady.Writes.{
  Write, apply_all, Ordered, Ordered-append, Ordered-less, apply_all-append,
}
use jprq_bek.Controller.Steady.Uniform.{Timed, Moves, Knows, Ran, Uniform, Course, steady, moved}

done_injective : {A : Type 0} (a b : A) → done a ≡ done b → a ≡ b
done_injective a b h = cc

module _ (assigned : String) (get : String → HttpAnswer) (answer : Result String) where
  module _ {A B : Type 0} where
    -- What a step that has ended with a value does to what follows.
    after_done :
        (P : Outcome B × Run → Type 0) (set : SetCondition) (a : A) (ws : List Write) (s : Run)
        (r : Outcome A × Run) (k : A → M B)
        → Ran assigned get answer set (done a) ws s r
        → ((s' : Run)
            → s'.status ≡ apply_all set ws s.status
            → Knows assigned get answer s'
            → cluster_writes s'.calls ≡ cluster_writes s.calls
            → P (k a s'))
        → P (continue_with r k)
    after_done P set a ws s (done b, s') k h f =
        subst (λ x. P (k x s')) (sym (done_injective b a h.ended)) (f s' h.wrote h.knows h.quiet)
    after_done P set a ws s (error e, s') k h f = absurd (no_error e h.ended)
      where
        no_error : (e : String) → error e ≡ done a → ⊥
        no_error e h = cc
    after_done P set a ws s (panic, s') k h f = absurd (no_panic h.ended)
      where
        no_panic : panic ≡ done a → ⊥
        no_panic h = cc

    after_error :
        (set : SetCondition) (e : String) (ws : List Write) (s : Run) (r : Outcome A × Run)
        (k : A → M B)
        → Ran assigned get answer set (error e) ws s r
        → Ran assigned get answer set (error e) ws s (continue_with r k)
    after_error set e ws s (error x, s') k h = record {
      ended = same x e h.ended;
      wrote = h.wrote;
      knows = h.knows;
      quiet = h.quiet;
    }
      where
        same :
            (x y : String)
            → ◌≡◌ {A = Outcome A} (error x) (error y)
            → ◌≡◌ {A = Outcome B} (error x) (error y)
        same x y h = cc
    after_error set e ws s (done a, s') k h = absurd (no_done a h.ended)
      where
        no_done : (a : A) → done a ≡ error e → ⊥
        no_done a h = cc
    after_error set e ws s (panic, s') k h = absurd (no_panic h.ended)
      where
        no_panic : ◌≡◌ {A = Outcome A} panic (error e) → ⊥
        no_panic h = cc

    after_panic :
        (set : SetCondition) (ws : List Write) (s : Run) (r : Outcome A × Run) (k : A → M B)
        → Ran assigned get answer set panic ws s r
        → Ran assigned get answer set panic ws s (continue_with r k)
    after_panic set ws s (panic, s') k h = record {
      ended = refl;
      wrote = h.wrote;
      knows = h.knows;
      quiet = h.quiet;
    }
    after_panic set ws s (done a, s') k h = absurd (no_done a h.ended)
      where
        no_done : (a : A) → done a ≡ panic → ⊥
        no_done a h = cc
    after_panic set ws s (error e, s') k h = absurd (no_error e h.ended)
      where
        no_error : (e : String) → ◌≡◌ {A = Outcome A} (error e) panic → ⊥
        no_error e h = cc

    module _ (low mid high : ℕ) (m : Timed A) (k : SetCondition → A → M B)
        (below : mid ≤ high) where
      abbrev followed : Timed B
      followed set = m set >>= k set

      -- The steps of m, with its outcome written out.
      abbrev Does : Outcome A → List Write → Type 0
      Does o ws =
          (set : SetCondition) (s : Run)
          → Knows assigned get answer s
          → Ran assigned get answer set o ws s (m set s)

      joined :
          (a : A) (ws : List Write)
          → Ordered low mid ws
          → Does (done a) ws
          → Uniform assigned get answer mid high (λ set. k set a)
          → Uniform assigned get answer low high followed
      joined a ws o d u = record {
        outcome = u.outcome;
        writes = ws ++ u.writes;
        ordered = Ordered-append low mid high ws u.writes o u.ordered;
        runs = λ set s knows.
            after_done (Ran assigned get answer set u.outcome (ws ++ u.writes) s) set a ws s
              (m set s) (k set) (d set s knows)
              (λ s' e knows' quiet'.
                let r = u.runs set s' knows' in
                record {
                  ended = r.ended;
                  wrote =
                      r.wrote
                      ∙ ap (apply_all set u.writes) e
                      ∙ sym (apply_all-append set ws u.writes s.status);
                  knows = r.knows;
                  quiet = r.quiet ∙ quiet';
                });
      }

      stopped_error :
          (e : String) (ws : List Write)
          → Ordered low mid ws
          → Does (error e) ws
          → Uniform assigned get answer low high followed
      stopped_error e ws o d = record {
        outcome = error e;
        writes = ws;
        ordered = Ordered-less low mid high ws below o;
        runs = λ set s knows. after_error set e ws s (m set s) (k set) (d set s knows);
      }

      stopped_panic :
          (ws : List Write)
          → Ordered low mid ws
          → Does panic ws
          → Uniform assigned get answer low high followed
      stopped_panic ws o d = record {
        outcome = panic;
        writes = ws;
        ordered = Ordered-less low mid high ws below o;
        runs = λ set s knows. after_panic set ws s (m set s) (k set) (d set s knows);
      }

      followed-Uniform :
          (o : Outcome A) (ws : List Write)
          → Ordered low mid ws
          → Does o ws
          → ((a : A) → Uniform assigned get answer mid high (λ set. k set a))
          → Uniform assigned get answer low high followed
      followed-Uniform (done a) ws o d next = joined a ws o d (next a)
      followed-Uniform (error e) ws o d next = stopped_error e ws o d
      followed-Uniform panic ws o d next = stopped_panic ws o d

      pub Uniform-bind :
          Uniform assigned get answer low mid m
          → ((a : A) → Uniform assigned get answer mid high (λ set. k set a))
          → Uniform assigned get answer low high followed
      Uniform-bind u next = followed-Uniform u.outcome u.writes u.ordered u.runs next

      followed-Course :
          (o : Outcome A) (ws : List Write)
          → Ordered low mid ws
          → Does o ws
          → ((a : A) → Course assigned get answer mid high (λ set. k set a))
          → Course assigned get answer low high followed
      followed-Course (done a) ws o d next = after (next a)
        where
          after :
              Course assigned get answer mid high (λ set. k set a)
              → Course assigned get answer low high followed
          after (steady u) = steady (joined a ws o d u)
          after (moved f) = moved λ set s knows.
              after_done Moves set a ws s (m set s) (k set) (d set s knows)
                (λ s' e knows' quiet'. f set s' knows')
      followed-Course (error e) ws o d next = steady (stopped_error e ws o d)
      followed-Course panic ws o d next = steady (stopped_panic ws o d)

      pub Course-bind :
          Uniform assigned get answer low mid m
          → ((a : A) → Course assigned get answer mid high (λ set. k set a))
          → Course assigned get answer low high followed
      Course-bind u next = followed-Course u.outcome u.writes u.ordered u.runs next
