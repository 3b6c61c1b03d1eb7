-- ===== src/Controller/Watches/Keys.antt =====
-- internal/controller/jprqtunnel_controller.go, `serviceRefKey`: the keys of the Service index.
use Prim.Native.Char.{Char, code}
use text.Mathlib.TextLemmas.{nil-append, cons-append, cons-eq-cons}
use jprq_bek.Base.{◌≡◌, refl, sym, ap, ◌∙◌, String, ◌<>◌, Bool, false, ◌=ℕ=◌, ◌||◌, arith}
use jprq_bek.Controller.Watches.{service_ref_key}

-- The text has a slash in it.
unfoldable pub has_slash : String → Bool
has_slash String.[] = false
has_slash (String.◌∷◌ c s) = code c =ℕ= 47 || has_slash s

-- A text with a slash behind its first character, taken apart.
cons_key : (c : Char) (s u : String) → (String.◌∷◌ c s <> "/" <> u) ≡ String.◌∷◌ c (s <> "/" <> u)
cons_key c s u = cons-append c s ("/" <> u)

abbrev slash : Char
slash = "/"

nil_key : (u : String) → ("" <> "/" <> u) ≡ String.◌∷◌ slash u
nil_key u = nil-append ("/" <> u) ∙ cons-append slash "" u ∙ ap (String.◌∷◌ slash) (nil-append u)

no_slash : (c : Char) (s : String) → has_slash (String.◌∷◌ c s) ≡ false → c ≡ slash → ⊥
unfolding has_slash
no_slash c s h e = ground (arith, ap code e)

before_slash :
    (s t u v : String)
    → has_slash s ≡ false
    → has_slash t ≡ false
    → (s <> "/" <> u) ≡ (t <> "/" <> v)
    → (s ≡ t) × (u ≡ v)
unfolding has_slash
before_slash String.[] String.[] u v h k e =
    (refl, (cons-eq-cons.0 (sym (nil_key u) ∙ e ∙ nil_key v)).1)
before_slash String.[] (String.◌∷◌ d t) u v h k e =
    let (same, _) = cons-eq-cons.0 (sym (nil_key u) ∙ e ∙ cons_key d t v) in
    absurd (no_slash d t k (sym same))
before_slash (String.◌∷◌ c s) String.[] u v h k e =
    let (same, _) = cons-eq-cons.0 (sym (nil_key v) ∙ sym e ∙ cons_key c s u) in
    absurd (no_slash c s h (sym same))
before_slash (String.◌∷◌ c s) (String.◌∷◌ d t) u v h k e =
    let (same, rest) = cons-eq-cons.0 (sym (cons_key c s u) ∙ e ∙ cons_key d t v) in
    let (p, q) = before_slash s t u v (ground arith) (ground arith) rest in
    (cons-eq-cons.1 (same, p), q)

-- Two Services have one key only if they are one, as long as their namespaces have no slash.
pub service_ref_key_injective :
    (ns ns' name name' : String)
    → has_slash ns ≡ false
    → has_slash ns' ≡ false
    → service_ref_key ns name ≡ service_ref_key ns' name'
    → (ns ≡ ns') × (name ≡ name')
unfolding service_ref_key
service_ref_key_injective ns ns' name name' h k e = before_slash ns ns' name name' h k e
