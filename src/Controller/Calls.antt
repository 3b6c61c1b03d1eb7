-- ===== src/Controller/Calls.antt =====
-- The log of the calls of Run.antt: which of them only read, and which write pods.
use mathlib.Core.List.{map, append_assoc, append-nil}
use jprq_bek.Base.{◌≡◌, refl, sym, ap, ◌∙◌, String, List, [], ◌∷◌, ◌++◌, All}
use jprq_bek.Kube.{Pod}
use jprq_bek.Controller.Run.{
  Env, Event, Run, Call, got_pod, got_secret, got_service, listed_slices, created, deleted_pod,
  recorded, fetched,
}

-- A write to the pods of the cluster.
pub data PodWrite : Type 0 where
  create : Pod → PodWrite
  delete : Pod → PodWrite

-- The pod writes among the calls, in their order.
abbrev pub pod_writes : List Call → List PodWrite
pod_writes [] = []
pod_writes (created pod ∷ calls) = create pod ∷ pod_writes calls
pod_writes (deleted_pod pod ∷ calls) = delete pod ∷ pod_writes calls
pod_writes (_ ∷ calls) = pod_writes calls

pub pod_writes-append : (l m : List Call) → pod_writes (l ++ m) ≡ pod_writes l ++ pod_writes m
pod_writes-append [] m = refl
pod_writes-append (created pod ∷ l) m = ap (λ w. create pod ∷ w) (pod_writes-append l m)
pod_writes-append (deleted_pod pod ∷ l) m = ap (λ w. delete pod ∷ w) (pod_writes-append l m)
pod_writes-append (_ ∷ l) m = pod_writes-append l m

-- A read, with the namespace to which the caches of pods and Secrets are restricted.
abbrev pub IsRead : Env → Call → Type 0
IsRead env (got_pod namespace name) = namespace ≡ env.operator_namespace
IsRead env (got_secret namespace name) = namespace ≡ env.operator_namespace
IsRead env (got_service namespace name) = Unit
IsRead env (listed_slices namespace name) = Unit
IsRead env _ = ⊥

-- Between two states only reads were made, and the assigned subdomain stayed.
pub record Reads (env : Env) (s s' : Run) : Type 0 where
  pub made : List Call
  pub appended : s'.calls ≡ s.calls ++ made
  pub are_reads : All (IsRead env) made
  pub assigned_kept : s'.status.assigned_subdomain ≡ s.status.assigned_subdomain

All-append :
    (env : Env) (l m : List Call)
    → All (IsRead env) l
    → All (IsRead env) m
    → All (IsRead env) (l ++ m)
All-append env [] m h k = k
All-append env (c ∷ l) m h k = (h.0, All-append env l m h.1 k)

pub Reads-refl : (env : Env) (s : Run) → Reads env s s
Reads-refl env s = record {
  made = [];
  appended = sym (append-nil s.calls);
  are_reads = tt;
  assigned_kept = refl;
}

-- A step that makes no call.
pub Reads-kept :
    {env : Env} {s t u : Run}
    → Reads env s t
    → u.calls ≡ t.calls
    → u.status.assigned_subdomain ≡ t.status.assigned_subdomain
    → Reads env s u
Reads-kept h e a = record {
  made = h.made;
  appended = e ∙ h.appended;
  are_reads = h.are_reads;
  assigned_kept = a ∙ h.assigned_kept;
}

-- A step that makes one read.
pub Reads-one :
    {env : Env} {s t u : Run} (c : Call)
    → Reads env s t
    → IsRead env c
    → u.calls ≡ t.calls ++ c ∷ []
    → u.status.assigned_subdomain ≡ t.status.assigned_subdomain
    → Reads env s u
Reads-one {env} {s} c h r e a = record {
  made = h.made ++ c ∷ [];
  appended = e ∙ ap (λ l. l ++ c ∷ []) h.appended ∙ append_assoc s.calls h.made (c ∷ []);
  are_reads = All-append env h.made (c ∷ []) h.are_reads (r, tt);
  assigned_kept = a ∙ h.assigned_kept;
}

pod_writes-reads : (env : Env) (l : List Call) → All (IsRead env) l → pod_writes l ≡ []
pod_writes-reads env [] h = refl
pod_writes-reads env (got_pod n m ∷ l) h = pod_writes-reads env l h.1
pod_writes-reads env (got_secret n m ∷ l) h = pod_writes-reads env l h.1
pod_writes-reads env (got_service n m ∷ l) h = pod_writes-reads env l h.1
pod_writes-reads env (listed_slices n m ∷ l) h = pod_writes-reads env l h.1
pod_writes-reads env (_ ∷ l) h = absurd h.0

-- Reads write no pod.
pub Reads-pod_writes :
    (env : Env) (s t : Run) → Reads env s t → pod_writes t.calls ≡ pod_writes s.calls
Reads-pod_writes env s t h =
    ap pod_writes h.appended
    ∙ pod_writes-append s.calls h.made
    ∙ ap (λ w. pod_writes s.calls ++ w) (pod_writes-reads env h.made h.are_reads)
    ∙ append-nil (pod_writes s.calls)

-- The namespaces of the pods and the Secrets that are read, which come from caches.
abbrev pub cached_namespaces : List Call → List String
cached_namespaces [] = []
cached_namespaces (got_pod namespace name ∷ calls) = namespace ∷ cached_namespaces calls
cached_namespaces (got_secret namespace name ∷ calls) = namespace ∷ cached_namespaces calls
cached_namespaces (_ ∷ calls) = cached_namespaces calls

pub cached_namespaces-append :
    (l m : List Call) → cached_namespaces (l ++ m) ≡ cached_namespaces l ++ cached_namespaces m
cached_namespaces-append [] m = refl
cached_namespaces-append (got_pod namespace name ∷ l) m =
    ap (λ n. namespace ∷ n) (cached_namespaces-append l m)
cached_namespaces-append (got_secret namespace name ∷ l) m =
    ap (λ n. namespace ∷ n) (cached_namespaces-append l m)
cached_namespaces-append (_ ∷ l) m = cached_namespaces-append l m

-- These pod writes, and no other, were made between two states of the log, and no pod or Secret was
-- read.
pub record Wrote (w : List PodWrite) (l m : List Call) : Type 0 where
  pub total : pod_writes m ≡ pod_writes l ++ w
  pub unread : cached_namespaces m ≡ cached_namespaces l

pub Wrote-refl : (l : List Call) → Wrote [] l l
Wrote-refl l = record { total = sym (append-nil (pod_writes l)); unread = refl }

unread-more :
    (m more : List Call)
    → cached_namespaces more ≡ []
    → cached_namespaces (m ++ more) ≡ cached_namespaces m
unread-more m more n =
    cached_namespaces-append m more
    ∙ ap (λ l. cached_namespaces m ++ l) n
    ∙ append-nil (cached_namespaces m)

Wrote-more :
    {w : List PodWrite} {l m : List Call} (more : List Call)
    → pod_writes more ≡ []
    → cached_namespaces more ≡ []
    → Wrote w l m
    → Wrote w l (m ++ more)
Wrote-more {m} more e n h = record {
  total =
      pod_writes-append m more
      ∙ ap (λ w. pod_writes m ++ w) e
      ∙ append-nil (pod_writes m)
      ∙ h.total;
  unread = unread-more m more n ∙ h.unread;
}

-- A call that writes no pod.
pub Wrote-event :
    {w : List PodWrite} {l m : List Call} (e : Event)
    → Wrote w l m
    → Wrote w l (m ++ recorded e ∷ [])
Wrote-event e h = Wrote-more (recorded e ∷ []) refl refl h

pod_writes-fetched : (urls : List String) → pod_writes (map fetched urls) ≡ []
pod_writes-fetched [] = refl
pod_writes-fetched (url ∷ urls) = pod_writes-fetched urls

unread-fetched : (urls : List String) → cached_namespaces (map fetched urls) ≡ []
unread-fetched [] = refl
unread-fetched (url ∷ urls) = unread-fetched urls

pub Wrote-fetched :
    {w : List PodWrite} {l m : List Call} (urls : List String)
    → Wrote w l m
    → Wrote w l (m ++ map fetched urls)
Wrote-fetched urls h =
    Wrote-more (map fetched urls) (pod_writes-fetched urls) (unread-fetched urls) h

-- The first pod write.
pub Wrote-first :
    {l m : List Call} (c : Call)
    → cached_namespaces (c ∷ []) ≡ []
    → Wrote [] l m
    → Wrote (pod_writes (c ∷ [])) l (m ++ c ∷ [])
Wrote-first {l} {m} c n h = record {
  total =
      pod_writes-append m (c ∷ [])
      ∙ ap (λ w. w ++ pod_writes (c ∷ [])) (h.total ∙ append-nil (pod_writes l));
  unread = unread-more m (c ∷ []) n ∙ h.unread;
}

-- Reads of pods and Secrets keep to the operator's namespace.
pub Reads-cached :
    (env : Env) (l : List Call)
    → All (IsRead env) l
    → All (λ namespace. namespace ≡ env.operator_namespace) (cached_namespaces l)
Reads-cached env [] h = tt
Reads-cached env (got_pod n m ∷ l) h = (h.0, Reads-cached env l h.1)
Reads-cached env (got_secret n m ∷ l) h = (h.0, Reads-cached env l h.1)
Reads-cached env (got_service n m ∷ l) h = Reads-cached env l h.1
Reads-cached env (listed_slices n m ∷ l) h = Reads-cached env l h.1
Reads-cached env (_ ∷ l) h = absurd h.0
