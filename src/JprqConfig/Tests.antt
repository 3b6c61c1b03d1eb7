-- ===== src/JprqConfig/Tests.antt =====
-- internal/jprqconfig/resolver.go: lookups of a sample resolver.
use jprq_bek.Base.{◌≡◌, ◌≢◌, refl, String, [], ◌∷◌, ok, err, All}
use jprq_bek.Kube.{HttpAnswer, unreachable, responded}
use jprq_bek.JprqConfig.{Resolver, domain, receive, decode_body}
use jprq_bek.JprqConfig.Caching.{lookups, lookups_settle, domain_retries}

abbrev serving : String → HttpAnswer
serving url = responded 200 "200 OK" (ok "jprq.live")

abbrev down : String → HttpAnswer
down url = unreachable "connection refused"

abbrev fresh : Resolver
fresh = record { url = ""; override = ""; cached = "" }

abbrev live_domain : String
live_domain = "jprq.live"

serving_domain : (domain serving fresh).0 ≡ ok "jprq.live"
unfolding domain receive decode_body
serving_domain = refl

down-domain : (domain down fresh).0 ≡ err "fetching https://jprq.io/config.json: connection refused"
unfolding domain receive
down-domain = refl

domain_not_empty : live_domain ≢ ""
domain_not_empty h = cc

lookups_settle_example :
    (live_domain ≢ "")
    × All (λ x. x ≡ (ok "jprq.live", [])) (lookups (down ∷ serving ∷ []) (domain serving fresh).1)
lookups_settle_example =
    lookups_settle serving (down ∷ serving ∷ []) fresh "jprq.live" serving_domain

domain_retries_example :
    ((domain down fresh).1 ≡ fresh) × ((domain serving (domain down fresh).1).0 ≡ ok "jprq.live")
domain_retries_example =
    domain_retries down serving fresh "fetching https://jprq.io/config.json: connection refused"
      "200 OK" "jprq.live" down-domain refl domain_not_empty
