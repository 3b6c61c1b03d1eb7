-- ===== src/JprqConfig/Caching.antt =====
-- internal/jprqconfig/resolver.go: what a resolver remembers, over any sequence of lookups.
use jprq_bek.Base.{
  ap, sym, ◌∙◌, ◌≡◌, ◌≢◌, refl, ◌⊎◌, String, List, [], ◌∷◌, Result, ok, err, arith, All, eq_iff,
}
use jprq_bek.Kube.{HttpAnswer, bad_request, unreachable, responded}
use jprq_bek.JprqConfig.{Resolver, receive, fetch_url, domain}

-- The resolver answers d without a request.
abbrev Settled : Resolver → String → Type 0
Settled r d = ((r.override ≡ d) × (d ≢ "")) ⊎ ((r.override ≡ "") × (r.cached ≡ d) × (d ≢ ""))

receive-Settled :
    (r : Resolver) (url : String) (answer : HttpAnswer) (d : String)
    → r.override ≡ ""
    → (receive r url answer).0 ≡ ok d
    → Settled (receive r url answer).1 d
unfolding receive
receive-Settled r url (bad_request e) d o h = absurd (ground arith)
receive-Settled r url (unreachable e) d o h = absurd (ground arith)
receive-Settled r url (responded code status (err e)) d o h = absurd (ground arith)
receive-Settled r url (responded code status (ok x)) d o h = ground (arith, eq_iff x "")

domain-Settled :
    (get : String → HttpAnswer) (r : Resolver) (d : String)
    → (domain get r).0 ≡ ok d
    → Settled (domain get r).1 d
unfolding domain
domain-Settled get r d h = ground (
  arith,
  eq_iff r.override "",
  eq_iff r.cached "",
  receive-Settled r (fetch_url r) (get (fetch_url r)) d,
)

Settled-domain :
    (get : String → HttpAnswer) (r : Resolver) (d : String)
    → Settled r d
    → domain get r ≡ (ok d, r, [])
unfolding domain
Settled-domain get r d h = ground (arith, eq_iff r.override "", eq_iff r.cached "")

-- The lookups of a process, each with the network's answers at that time.
pub lookups : List (String → HttpAnswer) → Resolver → List (Result String × List String)
lookups [] r = []
lookups (get ∷ gets) r = let (answer, r', sent) = domain get r in (answer, sent) ∷ lookups gets r'

Settled-lookups :
    (gets : List (String → HttpAnswer)) (r : Resolver) (d : String)
    → Settled r d
    → All (λ x. x ≡ (ok d, [])) (lookups gets r)
unfolding lookups
Settled-lookups [] r d s = tt
Settled-lookups (get ∷ gets) r d s =
    rw (Settled-domain get r d s) (refl, Settled-lookups gets r d s)

-- Once a lookup has succeeded, the domain is not empty, and every later lookup of the process gives the
-- same domain and sends no request, whatever the network then answers.
pub lookups_settle :
    (get : String → HttpAnswer) (gets : List (String → HttpAnswer)) (r : Resolver) (d : String)
    → (domain get r).0 ≡ ok d
    → (d ≢ "") × All (λ x. x ≡ (ok d, [])) (lookups gets (domain get r).1)
lookups_settle get gets r d h =
    let s = domain-Settled get r d h in (ground arith, Settled-lookups gets (domain get r).1 d s)

receive_error_unchanged :
    (r : Resolver) (url : String) (answer : HttpAnswer) (e : String)
    → (receive r url answer).0 ≡ err e
    → (receive r url answer).1 ≡ r
unfolding receive
receive_error_unchanged r url (bad_request x) e h = ground arith
receive_error_unchanged r url (unreachable x) e h = ground arith
receive_error_unchanged r url (responded code status (err x)) e h = ground arith
receive_error_unchanged r url (responded code status (ok x)) e h = ground arith

domain_error_unchanged :
    (get : String → HttpAnswer) (r : Resolver) (e : String)
    → (domain get r).0 ≡ err e
    → ((domain get r).1 ≡ r) × (r.override ≡ "") × (r.cached ≡ "")
unfolding domain
domain_error_unchanged get r e h = ground (
  arith,
  eq_iff r.override "",
  eq_iff r.cached "",
  receive_error_unchanged r (fetch_url r) (get (fetch_url r)) e,
)

fetched_domain :
    (get : String → HttpAnswer) (r : Resolver) (status x : String)
    → r.override ≡ ""
    → r.cached ≡ ""
    → get (fetch_url r) ≡ responded 200 status (ok x)
    → x ≢ ""
    → (domain get r).0 ≡ ok x
unfolding domain receive
fetched_domain get r status x o c g h =
    ground (arith, eq_iff r.override "", eq_iff r.cached "", eq_iff x "")

-- A failed lookup is not remembered: it leaves the resolver as it was, and the next lookup succeeds as
-- soon as the configuration is served with status 200 and a domain that is not empty.
pub domain_retries :
    (get later : String → HttpAnswer) (r : Resolver) (e status x : String)
    → (domain get r).0 ≡ err e
    → later (fetch_url r) ≡ responded 200 status (ok x)
    → x ≢ ""
    → ((domain get r).1 ≡ r) × ((domain later (domain get r).1).0 ≡ ok x)
domain_retries get later r e status x h g n =
    let (same, o, c) = domain_error_unchanged get r e h in
    (same, rw same (fetched_domain later r status x o c g n))

-- In an unchanged world, a lookup answers as the one before it.
pub domain_again :
    (get : String → HttpAnswer) (r : Resolver) → (domain get (domain get r).1).0 ≡ (domain get r).0
domain_again get r = again (domain get r).0 refl
  where
    again :
        (answer : Result String)
        → (domain get r).0 ≡ answer
        → (domain get (domain get r).1).0 ≡ (domain get r).0
    again (ok d) h =
        ap (λ x. x.0) (Settled-domain get (domain get r).1 d (domain-Settled get r d h)) ∙ sym h
    again (err e) h = ap (λ x. (domain get x).0) (domain_error_unchanged get r e h).0
