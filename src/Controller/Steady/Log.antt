-- ===== src/Controller/Steady/Log.antt =====
-- The calls of `reconcile` that change what the API server holds.
use mathlib.Core.List.{map, append-nil}
use jprq_bek.Base.{◌≡◌, refl, ap, ◌∙◌, String, List, [], ◌∷◌, ◌++◌}
use jprq_bek.Controller.Run.{Call, created, deleted_pod, patched, fetched}

-- The pods that are created and deleted, and the statuses that are patched, in their order.
abbrev pub cluster_writes : List Call → List Call
cluster_writes [] = []
cluster_writes (created pod ∷ calls) = created pod ∷ cluster_writes calls
cluster_writes (deleted_pod pod ∷ calls) = deleted_pod pod ∷ cluster_writes calls
cluster_writes (patched tunnel ∷ calls) = patched tunnel ∷ cluster_writes calls
cluster_writes (_ ∷ calls) = cluster_writes calls

cluster_writes-append :
    (l m : List Call) → cluster_writes (l ++ m) ≡ cluster_writes l ++ cluster_writes m
cluster_writes-append [] m = refl
cluster_writes-append (created pod ∷ l) m = ap (λ w. created pod ∷ w) (cluster_writes-append l m)
cluster_writes-append (deleted_pod pod ∷ l) m =
    ap (λ w. deleted_pod pod ∷ w) (cluster_writes-append l m)
cluster_writes-append (patched tunnel ∷ l) m =
    ap (λ w. patched tunnel ∷ w) (cluster_writes-append l m)
cluster_writes-append (_ ∷ l) m = cluster_writes-append l m

pub cluster_writes-more :
    (l more : List Call) → cluster_writes more ≡ [] → cluster_writes (l ++ more) ≡ cluster_writes l
cluster_writes-more l more e =
    cluster_writes-append l more ∙ ap (λ w. cluster_writes l ++ w) e ∙ append-nil (cluster_writes l)

pub cluster_writes-fetched : (urls : List String) → cluster_writes (map fetched urls) ≡ []
cluster_writes-fetched [] = refl
cluster_writes-fetched (url ∷ urls) = cluster_writes-fetched urls
