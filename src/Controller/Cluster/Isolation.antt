-- ===== src/Controller/Cluster/Isolation.antt =====
-- internal/controller/jprqtunnel_controller.go: the pods that a sequence of requests writes.
use mathlib.Core.List.{map}
use jprq_bek.Base.{
  ◌≡◌, ◌⊎◌, refl, sym, ap, ◌∙◌, ◌==◌, Bool, inl, inr, true, false, String, List, [], ◌∷◌, ◌++◌, All,
  Option, none, some, is_some, if◌then◌else◌,
}
use mathlib.Core.Option.{some-injective, none-ne-some}
use mathlib.Core.Path.{subst}
use jprq_bek.Api.{JprqTunnel}
use jprq_bek.Kube.{Fetched, found, missing, refused}
use jprq_bek.Controller.Run.{Env, Call, patched}
use jprq_bek.Controller.Calls.{pod_writes}
use jprq_bek.Controller.Reconcile.{reconcile_request}
use jprq_bek.Controller.Cluster.{
  Cluster, Named, Step, request, changed, restarted, Reach, here, next, patched_by, patched_all,
  answer_of,
}
use jprq_bek.Controller.Cluster.Owners.{Owned, reply-Owned}

All-map :
    {A B : Type 0} (f : A → B) (P : B → Type 0) (l : List A)
    → All (λ a. P (f a)) l
    → All P (map f l)
All-map f P [] h = tt
All-map f P (a ∷ l) (h, hs) = (h, All-map f P l hs)

All-append : {A : Type 0} (P : A → Type 0) (l m : List A) → All P l → All P m → All P (l ++ m)
All-append P [] m h k = k
All-append P (a ∷ l) m (h, hs) k = (h, All-append P l m hs k)

answered-named :
    (name : String) (held : Option JprqTunnel) (reply : Fetched JprqTunnel)
    → (reply ≡ answer_of held) ⊎ ((e : String) × (reply ≡ refused e))
    → ((t : JprqTunnel) → held ≡ some t → t.name ≡ name)
    → (t : JprqTunnel) → reply ≡ found t
    → t.name ≡ name
answered-named name held reply (inr (e, h)) named t k = absurd (found_refused t e (sym k ∙ h))
  where
    found_refused : (t : JprqTunnel) (e : String) → found t ≡ refused e → ⊥
    found_refused t e h = cc
answered-named name none reply (inl h) named t k = absurd (found_missing t (sym k ∙ h))
  where
    found_missing : (t : JprqTunnel) → found t ≡ missing → ⊥
    found_missing t h = cc
answered-named name (some u) reply (inl h) named t k = named t (ap some (same u t (sym h ∙ k)))
  where
    same : (u t : JprqTunnel) → found u ≡ found t → u ≡ t
    same u t h = cc

patched_by-name :
    (env : Env) (calls : List Call) (t : JprqTunnel) → (patched_by env calls t).name ≡ t.name
patched_by-name env [] t = refl
patched_by-name env (patched written ∷ calls) t =
    patched_by-name env calls _ ∙ accepted (is_some (env.api.patch_status written))
  where
    accepted : (b : Bool) → (if b then t else record t { status = written.status }).name ≡ t.name
    accepted true = refl
    accepted false = refl
patched_by-name env (_ ∷ calls) t = patched_by-name env calls t

patched_all-Named :
    (env : Env) (calls : List Call) (n : String) (held : Option JprqTunnel)
    → ((t : JprqTunnel) → held ≡ some t → t.name ≡ n)
    → (t : JprqTunnel) → patched_all env calls held ≡ some t
    → t.name ≡ n
patched_all-Named env calls n none named t h = absurd (none-ne-some t h)
patched_all-Named env calls n (some u) named t h =
    ap (λ x. x.name) (sym (some-injective _ t h)) ∙ patched_by-name env calls u ∙ named u refl

if-Named :
    (b : Bool) (n : String) (x y : Option JprqTunnel)
    → ((t : JprqTunnel) → x ≡ some t → t.name ≡ n)
    → ((t : JprqTunnel) → y ≡ some t → t.name ≡ n)
    → (t : JprqTunnel) → (if b then x else y) ≡ some t
    → t.name ≡ n
if-Named true n x y h k = h
if-Named false n x y h k = k

-- The tunnels have their names, and every pod that was written belongs to its tunnel.
record IsIsolated (namespace : String) (c : Cluster) : Type 0 where
  named : Named c.tunnels
  owned : All (Owned namespace) c.log

Step-IsIsolated :
    {namespace : String} {c d : Cluster}
    → Step namespace c d
    → IsIsolated namespace c
    → IsIsolated namespace d
unfolding reconcile_request
Step-IsIsolated {namespace} (request c env name e gives reply) safe =
    let calls = (reconcile_request env name c.resolver).2 in
    record {
      named = λ n.
          if-Named (n == name) n _ (c.tunnels n)
            (patched_all-Named env calls n (c.tunnels n) (safe.named n)) (safe.named n);
      owned = All-append (Owned namespace) c.log _ safe.owned (
          All-map (λ w. (name, w)) (Owned namespace) (pod_writes calls)
            (subst (λ ns. All (λ w. Owned ns (name, w)) (pod_writes calls)) e
              (reply-Owned env name c.resolver (env.api.get_tunnel name) gives (
                answered-named name (c.tunnels name) (env.api.get_tunnel name) reply
                  (safe.named name)))));
    }
Step-IsIsolated (changed c tunnels named) safe = record { named = named; owned = safe.owned }
Step-IsIsolated (restarted c resolver) safe = record { named = safe.named; owned = safe.owned }

Reach-IsIsolated :
    {namespace : String} {c d : Cluster}
    → Reach namespace c d
    → IsIsolated namespace c
    → IsIsolated namespace d
Reach-IsIsolated here safe = safe
Reach-IsIsolated (next r s) safe = Step-IsIsolated s (Reach-IsIsolated r safe)

-- The operator writes no pod but a tunnel's own. From a cluster that holds every tunnel under its name,
-- where no pod has been written yet, take any sequence of requests for any tunnels, of
-- changes to the tunnels by users, and of restarts of the operator, in worlds that answer each request
-- anew, where the API server gives the pod and the tunnel that it is asked for. Every pod that has been
-- created or deleted on the way, in whichever request, is in the operator's namespace, and has the name
-- of the pod of the tunnel that the request was for, which is the name of no other tunnel's pod.
pub pods_isolated :
    (namespace : String) (c d : Cluster)
    → Named c.tunnels
    → c.log ≡ []
    → Reach namespace c d
    → All (Owned namespace) d.log
pods_isolated namespace c d named empty reach =
    (Reach-IsIsolated reach
      (record { named = named; owned = subst (All (Owned namespace)) (sym empty) tt })).owned
