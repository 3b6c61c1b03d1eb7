-- ===== src/Controller/Json/Injective.antt =====
-- encoding/json: the texts in what `Marshal` writes.
use Prim.Native.Char.{Char, code}
use package.text.Mathlib.TextEquality.{Char-path}
use mathlib.Core.List.{append_assoc}
use jprq_bek.Base.{◌≡◌, ◌≢◌, refl, sym, ap, ◌∙◌, ℕ, String, List, ◌∷◌, ◌++◌, utf8_char, arith}
use jprq_bek.Controller.Json.{json_char, json_chars, json_string}
use jprq_bek.Controller.Json.Decode.{byte_at, drop, decode, decode-json_char, decode-utf8_char}

module _ (c d : ℕ) (x y : List ℕ) where
  both : ◌≡◌ {A = ℕ × List ℕ} (c, x) (d, y) → (c ≡ d) × (x ≡ y)
  both e = (ap (λ p. p.0) e, ap (λ p. p.1) e)

  json_char_injective : json_char c ++ x ≡ json_char d ++ y → (c ≡ d) × (x ≡ y)
  json_char_injective e = both (sym (decode-json_char c x) ∙ ap decode e ∙ decode-json_char d y)

  pub utf8_char_injective :
      c ≢ b'\\' → d ≢ b'\\' → utf8_char c ++ x ≡ utf8_char d ++ y → (c ≡ d) × (x ≡ y)
  utf8_char_injective h k e =
      both (sym (decode-utf8_char c x h) ∙ ap decode e ∙ decode-utf8_char d y k)

decode-quote : (l : List ℕ) → byte_at l 0 ≡ b'"' → (decode l).0 ≡ b'"'
unfolding decode
decode-quote l h = ground arith

quote_escaped : (x : List ℕ) → byte_at (json_char b'"' ++ x) 0 ≡ b'\\'
unfolding json_char
quote_escaped x = refl

-- No character begins with a quote.
json_char-ne-quote : (c : ℕ) (x : List ℕ) → byte_at (json_char c ++ x) 0 ≢ b'"'
json_char-ne-quote c x h = omega (arith, backslash)
  where
    is_quote : c ≡ b'"'
    is_quote = ap (λ p. p.0) (sym (decode-json_char c x)) ∙ decode-quote (json_char c ++ x) h

    backslash : ◌≡◌ {A = ℕ} b'"' b'\\'
    backslash = sym h ∙ ap (λ d. byte_at (json_char d ++ x) 0) is_quote ∙ quote_escaped x

module _ (c : Char) (s : String) (x : List ℕ) where
  json_chars-cons : json_chars (String.◌∷◌ c s) ++ x ≡ json_char (code c) ++ (json_chars s ++ x)
  unfolding json_chars
  json_chars-cons = append_assoc (json_char (code c)) (json_chars s) x

  json_chars-cons-ne-quote : byte_at (json_chars (String.◌∷◌ c s) ++ x) 0 ≢ b'"'
  json_chars-cons-ne-quote h =
      json_char-ne-quote (code c) (json_chars s ++ x)
        (ap (λ l. byte_at l 0) (sym json_chars-cons) ∙ h)

-- A text ends at its quote.
json_chars-injective :
    (s t : String) (x y : List ℕ)
    → json_chars s ++ (b'"' ∷ x) ≡ json_chars t ++ (b'"' ∷ y)
    → (s ≡ t) × (x ≡ y)
unfolding json_chars
json_chars-injective String.[] String.[] x y e = (refl, ap (drop 1) e)
json_chars-injective String.[] (String.◌∷◌ d t) x y e =
    absurd (json_chars-cons-ne-quote d t (b'"' ∷ y) (ap (λ l. byte_at l 0) (sym e)))
json_chars-injective (String.◌∷◌ c s) String.[] x y e =
    absurd (json_chars-cons-ne-quote c s (b'"' ∷ x) (ap (λ l. byte_at l 0) e))
json_chars-injective (String.◌∷◌ c s) (String.◌∷◌ d t) x y e =
    let (same, rest) =
      json_char_injective (code c) (code d) (json_chars s ++ (b'"' ∷ x))
        (json_chars t ++ (b'"' ∷ y))
        (sym (json_chars-cons c s (b'"' ∷ x)) ∙ e ∙ json_chars-cons d t (b'"' ∷ y)) in
    let (texts, after) = json_chars-injective s t x y rest in
    (ap (λ a. String.◌∷◌ a s) (Char-path c d same) ∙ ap (String.◌∷◌ d) texts, after)

pub json_string-injective :
    (s t : String) (x y : List ℕ) → json_string s x ≡ json_string t y → (s ≡ t) × (x ≡ y)
unfolding json_string
json_string-injective s t x y e = json_chars-injective s t x y (ap (drop 1) e)
