-- ===== src/Controller/Classify/Guard.antt =====
-- internal/controller/classify.go, `agentStatus` and `classifyPod`: which pods get a verdict.
use mathlib.Core.Option.{some-injective}
use mathlib.Core.Path.{subst}
use jprq_bek.Base.{
  ◌≡◌, ◌≢◌, refl, true, ◌↔◌, ◌⊎◌, inl, inr, String, Bool-cases, Option-cases, false, none, some,
  List, [], ◌∷◌, ℤ, arith, ◌==◌, eq_iff,
}
use jprq_bek.Api.{CollisionBehavior}
use jprq_bek.Kube.{Pod, ContainerStatus}
use jprq_bek.Controller.Classify.{
  Verdict, classify_exit, agent_container_name, status_of, agent_status, is_online, judge_status,
  classify_pod,
}

-- The first status for a container of this name.
pub data IsFirst (name : String) (cs : ContainerStatus) : List ContainerStatus → Type 0 where
  first_here : (rest : List ContainerStatus) → cs.name ≡ name → IsFirst name cs (cs ∷ rest)
  first_later :
      (other : ContainerStatus) (rest : List ContainerStatus)
      → other.name ≢ name
      → IsFirst name cs rest
      → IsFirst name cs (other ∷ rest)

status_of-IsFirst :
    (name : String) (l : List ContainerStatus) (cs : ContainerStatus)
    → status_of name l ≡ some cs
    → IsFirst name cs l
unfolding status_of
status_of-IsFirst name [] cs h = absurd (ground arith)
status_of-IsFirst name (c ∷ l) cs h = elim (Bool-cases (c.name == name)) [
  | inl same ↦
      subst (λ x. IsFirst name x (c ∷ l)) (some-injective c cs (rw same at h))
        (first_here l ((eq_iff c.name name).0 same))
  | inr other ↦
      first_later c l (ground (arith, eq_iff c.name name))
        (status_of-IsFirst name l cs (rw other at h))
]

IsFirst-status_of :
    (name : String) (cs : ContainerStatus) (l : List ContainerStatus)
    → IsFirst name cs l
    → status_of name l ≡ some cs
unfolding status_of
IsFirst-status_of name cs _ (first_here rest e) = rw ((eq_iff cs.name name).1 e) refl
IsFirst-status_of name cs _ (first_later other rest d h) =
    rw (different other.name name d) (IsFirst-status_of name cs rest h)
  where
    different : (s t : String) → s ≢ t → (s == t) ≡ false
    different s t h = ground (arith, eq_iff s t)

-- The exit that is judged: the last termination if there was one, else a termination that is current.
abbrev pub Exited : ContainerStatus → ℤ → Type 0
Exited cs code =
    (cs.last_termination_state.terminated ≡ some code)
    ⊎ ((cs.last_termination_state.terminated ≡ none) × (cs.state.terminated ≡ some code))

-- The container runs and is ready.
abbrev pub RunsReady : ContainerStatus → Type 0
RunsReady cs = (cs.state.running ≡ true) × (cs.ready ≡ true)

judge_status_sound :
    (b : CollisionBehavior) (cs : ContainerStatus) (v : Verdict) (code : ℤ)
    → judge_status b (some cs) ≡ some (v, code)
    → (¬ RunsReady cs) × Exited cs code × (v ≡ classify_exit code b)
unfolding judge_status
judge_status_sound b cs v code h = (λ r. ground (arith, r), ground arith, ground arith)

offline : (cs : ContainerStatus) → ¬ RunsReady cs → is_online cs ≡ false
offline cs h = ground (arith, h)

judge_status_complete :
    (b : CollisionBehavior) (cs : ContainerStatus) (code : ℤ)
    → is_online cs ≡ false
    → Exited cs code
    → judge_status b (some cs) ≡ some (classify_exit code b, code)
unfolding judge_status
judge_status_complete b cs code h e = ground arith

-- What justifies a verdict on a pod: the first status that it reports for a container called agent is
-- not both running and ready, has exited with this code, and the verdict is that on the code.
pub record Judged (pod : Pod) (b : CollisionBehavior) (v : Verdict) (code : ℤ) : Type 0 where
  pub cs : ContainerStatus
  pub chosen : IsFirst "agent" cs pod.container_statuses
  pub not_ready : ¬ RunsReady cs
  pub exited : Exited cs code
  pub verdict : v ≡ classify_exit code b

unjudged :
    (b : CollisionBehavior) (v : Verdict) (code : ℤ) → judge_status b none ≡ some (v, code) → ⊥
unfolding judge_status
unjudged b v code h = ground (arith, h)

classify_pod-Judged :
    (pod : Pod) (b : CollisionBehavior) (v : Verdict) (code : ℤ)
    → classify_pod pod b ≡ some (v, code)
    → Judged pod b v code
unfolding classify_pod agent_status
classify_pod-Judged pod b v code h =
    elim (Option-cases (status_of agent_container_name pod.container_statuses)) [
      | inl missing ↦ absurd (unjudged b v code (rw missing at h))
      | inr (cs, found) ↦
          let (not_ready, exited, verdict) = judge_status_sound b cs v code (rw found at h) in
          record {
            cs = cs;
            chosen = status_of-IsFirst agent_container_name pod.container_statuses cs found;
            not_ready = not_ready;
            exited = exited;
            verdict = verdict;
          }
    ]

Judged-classify_pod :
    (pod : Pod) (b : CollisionBehavior) (v : Verdict) (code : ℤ)
    → Judged pod b v code
    → classify_pod pod b ≡ some (v, code)
unfolding classify_pod agent_status
Judged-classify_pod pod b v code j =
    rw (IsFirst-status_of agent_container_name j.cs pod.container_statuses j.chosen, j.verdict)
      (judge_status_complete b j.cs code (offline j.cs j.not_ready) j.exited)

-- A pod gets a verdict exactly when the first status for its container called agent is not both running
-- and ready, and tells of an exit: the last one, else a current one. The verdict is that on its code.
pub classify_pod_iff :
    (pod : Pod) (b : CollisionBehavior) (v : Verdict) (code : ℤ)
    → (classify_pod pod b ≡ some (v, code)) ↔ Judged pod b v code
classify_pod_iff pod b v code = (classify_pod-Judged pod b v code, Judged-classify_pod pod b v code)
