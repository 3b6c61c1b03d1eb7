-- ===== src/Base/Prefix.antt =====
-- Prefixes of a text: two texts that begin differently are not prefixes of one text.
use Prim.Native.Char.{Char, code}
use Prim.Native.String.{String, ◌∷◌}
use mathlib.Core.Path.{◌≡◌, ◌∙◌, sym, ap}
use mathlib.Core.Bool.{true}
use text.Mathlib.Text.{starts_with}
use text.Mathlib.TextEquality.{starts_with_iff}
use text.Mathlib.TextBridge.{IsPrefix}
use text.Mathlib.TextLemmas.{cons-append, cons-eq-cons}

same_head_of_prefix :
    (m s t : String) (c d : Char) → IsPrefix (c ∷ s) m → IsPrefix (d ∷ t) m → c ≡ d
same_head_of_prefix m s t c d (u, p) (v, q) =
    (cons-eq-cons.0 (sym (cons-append c s u) ∙ p ∙ sym q ∙ cons-append d t v)).0

pub starts_with-same_head :
    (m s t : String) (c d : Char)
    → starts_with m (c ∷ s) ≡ true
    → starts_with m (d ∷ t) ≡ true
    → code c ≡ code d
starts_with-same_head m s t c d p q = ap code (
    same_head_of_prefix m s t c d ((starts_with_iff m (c ∷ s)).0 p)
      ((starts_with_iff m (d ∷ t)).0 q))
