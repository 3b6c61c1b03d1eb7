-- ===== src/Controller/Cluster/Sticky.antt =====
-- internal/controller/jprqtunnel_controller.go, `Reconcile`: a failed tunnel among the others, while nobody
-- edits it.
use jprq_bek.Base.{◌≡◌, ◌⊎◌, ◌==◌, String, List, [], ◌∷◌, Option, if◌then◌else◌}
use jprq_bek.Api.{JprqTunnel}
use jprq_bek.Kube.{refused}
use jprq_bek.JprqConfig.{Resolver}
use jprq_bek.Controller.Run.{Env}
use jprq_bek.Controller.Calls.{PodWrite}
use jprq_bek.Controller.Cluster.{Cluster, answer_of, requested}

-- The pods that were written for a tunnel.
abbrev pub writes_for : String → List (String × PodWrite) → List PodWrite
writes_for n [] = []
writes_for n ((m, w) ∷ log) = let rest = writes_for n log in if n == m then w ∷ rest else rest

-- Requests for any tunnels, in worlds that answer each with the tunnel that is held or refuse to; changes
-- that users make to the other tunnels; and restarts of the operator.
pub data Unedited (n : String) (c : Cluster) : Cluster → Type 0 where
  untouched : Unedited n c c
  asked :
      {d : Cluster} (env : Env) (name : String)
      → Unedited n c d
      → ((env.api.get_tunnel name ≡ answer_of (d.tunnels name))
          ⊎ ((e : String) × (env.api.get_tunnel name ≡ refused e)))
      → Unedited n c (requested env name d)
  others_changed :
      {d : Cluster} (tunnels : String → Option JprqTunnel)
      → Unedited n c d
      → tunnels n ≡ d.tunnels n
      → Unedited n c (record d { tunnels = tunnels })
  restarted_again :
      {d : Cluster} (resolver : Resolver)
      → Unedited n c d
      → Unedited n c (record d { resolver = resolver })
