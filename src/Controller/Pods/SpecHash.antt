-- ===== src/Controller/Pods/SpecHash.antt =====
-- internal/controller/pod.go, `specHash`: what the annotation of a pod tells about its spec.
use jprq_bek.Base.{◌≡◌, sym, ap, ◌∙◌, String, eq_iff, lookup_or_empty, true, List, [], ◌∷◌, ℤ, ok}
use jprq_bek.Api.{JprqTunnel}
use jprq_bek.Kube.{External, Pod}
use jprq_bek.Agent.Number.RoundTrip.{Fits}
use jprq_bek.Controller.Json.{
  Member, text, number, json_string, json_number, json_member, json_more, json_object,
}
use jprq_bek.Controller.Json.Decode.{drop}
use jprq_bek.Controller.Json.Injective.{json_string-injective}
use jprq_bek.Controller.Json.Numbers.{json_number-injective}
use jprq_bek.Controller.Pods.{
  spec_hash_annotation, AgentPodConfig, payload, agent_pod_spec, spec_hash, desired_pod,
  unowned_pod,
}
use jprq_bek.Controller.Pods.Agreement.{with_owner-owned}
use jprq_bek.Controller.Run.{Env}
use jprq_bek.Controller.Settle.{is_current}

object-more :
    (m n : Member) (ms ns : List Member)
    → json_object (m ∷ ms) ≡ json_object (n ∷ ns)
    → json_more (m ∷ ms) ≡ json_more (n ∷ ns)
unfolding json_object json_more
object-more m n ms ns e = ap (λ l. b',' ∷ drop 1 l) e

more-text :
    (key s t : String) (ms ns : List Member)
    → json_more (text key s ∷ ms) ≡ json_more (text key t ∷ ns)
    → (s ≡ t) × (json_more ms ≡ json_more ns)
unfolding json_more json_member
more-text key s t ms ns e =
    let (_, value) =
      json_string-injective key key (b':' ∷ json_string s (json_more ms))
        (b':' ∷ json_string t (json_more ns)) (ap (drop 1) e) in
    json_string-injective s t (json_more ms) (json_more ns) (ap (drop 1) value)

more-number :
    (key : String) (m n : ℤ) (u v : Member) (ms ns : List Member)
    → Fits m
    → Fits n
    → json_more (number key m ∷ u ∷ ms) ≡ json_more (number key n ∷ v ∷ ns)
    → (m ≡ n) × (json_more (u ∷ ms) ≡ json_more (v ∷ ns))
unfolding json_more json_member
more-number key m n u v ms ns h k e =
    let (_, value) =
      json_string-injective key key (b':' ∷ json_number m (json_more (u ∷ ms)))
        (b':' ∷ json_number n (json_more (v ∷ ns))) (ap (drop 1) e) in
    let (same, after) =
      json_number-injective m n (json_member u (json_more ms)) (json_member v (json_more ns)) h k
        (ap (drop 1) value) in
    (same, ap (λ l. b',' ∷ l) after)

-- The encoding of its inputs determines the spec of the pod.
json_object-payload :
    (c d : AgentPodConfig)
    → Fits c.backend_port
    → Fits d.backend_port
    → json_object (payload c) ≡ json_object (payload d)
    → agent_pod_spec c ≡ agent_pod_spec d
json_object-payload c d h k e =
    let (image, e) = more-text _ _ _ _ _ (object-more _ _ _ _ e) in
    let (_, e) = more-text _ _ _ _ _ e in
    let (subdomain, e) = more-text _ _ _ _ _ e in
    let (host, e) = more-text _ _ _ _ _ e in
    let (port, e) = more-number _ _ _ _ _ _ _ h k e in
    let (secret, e) = more-text _ _ _ _ _ e in
    let (key, _) = more-text _ _ _ _ _ e in
    λ i. agent_pod_spec (record {
      image = image i;
      operator_namespace = c.operator_namespace;
      backend_host = host i;
      backend_port = port i;
      subdomain = subdomain i;
      secret_name = secret i;
      secret_key = key i;
      token_digest = c.token_digest;
    })

module _ (ext : External) (tunnel : JprqTunnel) (cfg : AgentPodConfig) (pod : Pod) where
  abbrev Built : Type 0
  Built = desired_pod ext tunnel cfg ≡ ok pod

  built :
      Built
      → (pod.spec ≡ agent_pod_spec cfg)
        × (pod.annotations ≡ (spec_hash_annotation, spec_hash ext cfg) ∷ [])
  unfolding desired_pod
  built h =
      let (refs, e) =
        with_owner-owned ext (unowned_pod ext tunnel cfg) pod
          (ext.owner_references tunnel (unowned_pod ext tunnel cfg)) h in
      (ap (λ p. p.spec) (sym e), ap (λ p. p.annotations) (sym e))

-- The hash of a pod's inputs stands for the spec. Take two pods that are built from configurations whose
-- backend ports are integers of 64 bits, and let the kept part of the digest of the encoding of the two
-- inputs not collide. When the one counts as current for the other, because their annotations agree,
-- their specs are equal: a pod that is kept is the pod that would be built.
pub is_current-spec :
    (env : Env) (old_tunnel tunnel : JprqTunnel) (c d : AgentPodConfig) (pod desired : Pod)
    → Fits c.backend_port
    → Fits d.backend_port
    → (spec_hash env.ext c ≡ spec_hash env.ext d
        → json_object (payload c) ≡ json_object (payload d))
    → desired_pod env.ext old_tunnel c ≡ ok pod
    → desired_pod env.ext tunnel d ≡ ok desired
    → is_current env pod desired ≡ true
    → pod.spec ≡ desired.spec
is_current-spec env old_tunnel tunnel c d pod desired h k no_collision first second current =
    let (spec, annotations) = built env.ext old_tunnel c pod first in
    let (spec', annotations') = built env.ext tunnel d desired second in
    spec ∙ json_object-payload c d h k (no_collision (hashes annotations annotations')) ∙ sym spec'
  where
    hashes :
        pod.annotations ≡ (spec_hash_annotation, spec_hash env.ext c) ∷ []
        → desired.annotations ≡ (spec_hash_annotation, spec_hash env.ext d) ∷ []
        → spec_hash env.ext c ≡ spec_hash env.ext d
    hashes a b =
        ap (lookup_or_empty spec_hash_annotation) (sym a)
        ∙ (eq_iff _ _).0 current
        ∙ ap (lookup_or_empty spec_hash_annotation) b
