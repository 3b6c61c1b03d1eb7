-- ===== src/JprqConfig.antt =====
-- internal/jprqconfig/resolver.go: the base domain of the public addresses, fetched once.
pub mod Caching
pub mod Tests
use jprq_bek.Base.{
  ℕ, String, ◌<>◌, ◌==◌, ◌=ℕ=◌, Bool, List, [], ◌∷◌, Result, ok, err, if◌then◌else◌,
}
use jprq_bek.Kube.{HttpAnswer, bad_request, unreachable, responded}

abbrev pub default_url : String
default_url = "https://jprq.io/config.json"

pub record Resolver : Type 0 where
  pub url : String
  pub override : String
  pub cached : String

-- `NewResolver`
unfoldable pub new_resolver : String → String → Resolver
new_resolver url override = record {
  url = if url == "" then default_url else url;
  override = override;
  cached = "";
}

-- The outcome of a lookup: the domain or an error, the resolver, and the requests that were sent.
abbrev pub Lookup : Type 0
Lookup = Result String × Resolver × List String

decode_body : Resolver → String → Result String → Lookup
decode_body r url (err e) = (err ("decoding " <> url <> ": " <> e), r, url ∷ [])
decode_body r url (ok domain) =
    if domain == ""
    then (err (url <> " returned an empty domain"), r, url ∷ [])
    else (ok domain, record r { cached = domain }, url ∷ [])

receive : Resolver → String → HttpAnswer → Lookup
unfolding decode_body
receive r url (bad_request e) = (err ("building request for " <> url <> ": " <> e), r, [])
receive r url (unreachable e) = (err ("fetching " <> url <> ": " <> e), r, url ∷ [])
receive r url (responded status_code status body) =
    if status_code =ℕ= 200
    then decode_body r url body
    else (err ("fetching " <> url <> ": unexpected status " <> status), r, url ∷ [])

abbrev pub fetch_url : Resolver → String
fetch_url r = if r.url == "" then default_url else r.url

-- `Domain`. The mutex makes each call atomic.
unfoldable pub domain : (String → HttpAnswer) → Resolver → Lookup
unfolding receive
domain get_config r =
    if r.override == ""
    then (if r.cached == ""
        then receive r (fetch_url r) (get_config (fetch_url r))
        else (ok r.cached, r, []))
    else (ok r.override, r, [])

-- `URLFor`
unfoldable pub url_for : String → String → String
url_for subdomain domain = "https://" <> subdomain <> "." <> domain
