-- ===== src/Controller/Tests/Clusters.antt =====
-- internal/controller/jprqtunnel_controller.go: a sequence of requests for the sample tunnel.
use text.Mathlib.TextEquality.{eq_iff}
use mathlib.Core.Option.{some-injective, none-ne-some}
use jprq_bek.Base.{
  ◌≡◌, refl, sym, ap, ◌∙◌, ◌==◌, Bool, true, false, inl, [], All, none, some, if◌then◌else◌,
}
use jprq_bek.Api.{pending, failed}
use jprq_bek.Kube.{Pod, found, missing}
use jprq_bek.Controller.Run.{Env}
use jprq_bek.Controller.Cluster.{
  Cluster, Named, GivesPods, request, restarted, Reach, here, next, requested,
}
use jprq_bek.Controller.Cluster.Owners.{Owned}
use jprq_bek.Controller.Cluster.Isolation.{pods_isolated}
use jprq_bek.Controller.Tests.Samples.{sample_env, sample_tunnel, sample_resolver}

abbrev one_tunnel : Cluster
one_tunnel = record {
  tunnels = λ n. if n == "shop" then some (sample_tunnel pending) else none;
  resolver = sample_resolver;
  log = [];
}

one_tunnel-Named : Named one_tunnel.tunnels
one_tunnel-Named n t = held (n == "shop") refl
  where
    held :
        (b : Bool)
        → (n == "shop") ≡ b
        → (if b then some (sample_tunnel pending) else none) ≡ some t
        → t.name ≡ n
    held true e h =
        ap (λ x. x.name) (sym (some-injective (sample_tunnel pending) t h))
        ∙ sym ((eq_iff n "shop").0 e)
    held false e h = absurd (none-ne-some t h)

-- The agent pod is missing, so each request creates it.
abbrev empty_env : Env
empty_env = sample_env pending missing

empty_env-GivesPods : GivesPods empty_env
empty_env-GivesPods namespace name pod h = absurd (missing_found pod h)
  where
    missing_found : (pod : Pod) → missing ≡ found pod → ⊥
    missing_found pod h = cc

abbrev first_request : Cluster
first_request = requested empty_env "shop" one_tunnel

abbrev after_restart : Cluster
after_restart = record first_request { resolver = sample_resolver }

sample-Reach : Reach "operators" one_tunnel after_restart
sample-Reach =
    next (next here (request one_tunnel empty_env "shop" refl empty_env-GivesPods (inl refl)))
      (restarted first_request sample_resolver)

pods_isolated_example : All (Owned "operators") after_restart.log
pods_isolated_example =
    pods_isolated "operators" one_tunnel after_restart one_tunnel-Named refl sample-Reach

-- The tunnel has failed at its present generation.
abbrev failed_tunnel : Cluster
failed_tunnel = record {
  tunnels = λ n. if n == "shop" then some (sample_tunnel failed) else none;
  resolver = sample_resolver;
  log = [];
}

abbrev failed_env : Env
failed_env = sample_env failed missing

abbrev failed_later : Cluster
failed_later = record (requested failed_env "shop" failed_tunnel) { resolver = sample_resolver }
