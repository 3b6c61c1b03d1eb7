-- ===== src/Controller/Json/Numbers.antt =====
-- encoding/json: the numbers in what `Marshal` writes.
use Prim.Native.Char.{Char, code}
use package.text.Mathlib.TextEquality.{Char-path}
use mathlib.Core.List.{append_assoc}
use package.text.Mathlib.TextLemmas.{nil-append, cons-append}
use mathlib.Core.Path.{subst}
use jprq_bek.Base.{
  ◌≡◌, ◌≢◌, refl, sym, ap, ◌∙◌, ℕ, zero, suc, ◌/◌, ◌%◌, String, ◌<>◌, List, ◌∷◌, ◌++◌, Bool, true,
  false, if◌then◌else◌, ltb, ℤ, pos, negsuc, itoa, itoa_int, print_from, digit, utf8_char, bytes_of,
  arith,
}
use jprq_bek.Controller.Json.{json_number}
use jprq_bek.Controller.Json.Injective.{utf8_char_injective}
use jprq_bek.Agent.Number.{atoi}
use jprq_bek.Agent.Number.RoundTrip.{Fits, atoi-itoa_int}

-- Without commas and backslashes.
abbrev Plain : String → Type 0
Plain String.[] = Unit
Plain (String.◌∷◌ c s) = (code c ≢ b',') × (code c ≢ b'\\') × Plain s

Plain-put :
    (c : Char) (s : String)
    → code c ≢ b','
    → code c ≢ b'\\'
    → Plain s
    → Plain (String.◌∷◌ c String.[] <> s)
Plain-put c s h k p =
    subst Plain (sym (cons-append c String.[] s ∙ ap (String.◌∷◌ c) (nil-append s))) (h, k, p)

digit-Plain : (d : ℕ) (s : String) → Plain s → Plain (digit d <> s)
digit-Plain zero s p = Plain-put "0" s (omega arith) (omega arith) p
digit-Plain (suc zero) s p = Plain-put "1" s (omega arith) (omega arith) p
digit-Plain (suc (suc zero)) s p = Plain-put "2" s (omega arith) (omega arith) p
digit-Plain (suc (suc (suc zero))) s p = Plain-put "3" s (omega arith) (omega arith) p
digit-Plain (suc (suc (suc (suc zero)))) s p = Plain-put "4" s (omega arith) (omega arith) p
digit-Plain (suc (suc (suc (suc (suc zero))))) s p = Plain-put "5" s (omega arith) (omega arith) p
digit-Plain (suc (suc (suc (suc (suc (suc zero)))))) s p =
    Plain-put "6" s (omega arith) (omega arith) p
digit-Plain (suc (suc (suc (suc (suc (suc (suc zero))))))) s p =
    Plain-put "7" s (omega arith) (omega arith) p
digit-Plain (suc (suc (suc (suc (suc (suc (suc (suc zero)))))))) s p =
    Plain-put "8" s (omega arith) (omega arith) p
digit-Plain (suc (suc (suc (suc (suc (suc (suc (suc (suc d))))))))) s p =
    Plain-put "9" s (omega arith) (omega arith) p

Plain-if : (b : Bool) (s t : String) → Plain s → Plain t → Plain (if b then s else t)
Plain-if true s t p q = p
Plain-if false s t p q = q

print_from-Plain : (fuel n : ℕ) (out : String) → Plain out → Plain (print_from fuel n out)
unfolding print_from
print_from-Plain zero n out p = p
print_from-Plain (suc fuel) n out p =
    let q = digit-Plain (n % 10) out p in
    Plain-if (ltb n 10) _ _ q (print_from-Plain fuel (n / 10) (digit (n % 10) <> out) q)

itoa_int-Plain : (z : ℤ) → Plain (itoa_int z)
unfolding itoa_int itoa
itoa_int-Plain (pos n) = print_from-Plain (suc n) n "" tt
itoa_int-Plain (negsuc n) =
    Plain-put "-" (itoa (suc n)) (omega arith) (omega arith)
      (print_from-Plain (suc (suc n)) (suc n) "" tt)

bytes_of-injective :
    (s t : String) (x y : List ℕ)
    → Plain s
    → Plain t
    → bytes_of s ++ (b',' ∷ x) ≡ bytes_of t ++ (b',' ∷ y)
    → (s ≡ t) × (x ≡ y)
unfolding bytes_of
bytes_of-injective String.[] String.[] x y p q e =
    (refl, (utf8_char_injective b',' b',' x y (omega arith) (omega arith) e).1)
bytes_of-injective String.[] (String.◌∷◌ d t) x y p (h, k, q) e = absurd (
    h (
      sym
        (utf8_char_injective b',' (code d) x (bytes_of t ++ (b',' ∷ y)) (omega arith) k
          (e ∙ append_assoc (utf8_char (code d)) (bytes_of t) (b',' ∷ y))).0))
bytes_of-injective (String.◌∷◌ c s) String.[] x y (h, k, p) q e = absurd (
    h
      (utf8_char_injective (code c) b',' (bytes_of s ++ (b',' ∷ x)) y k (omega arith)
        (sym (append_assoc (utf8_char (code c)) (bytes_of s) (b',' ∷ x)) ∙ e)).0)
bytes_of-injective (String.◌∷◌ c s) (String.◌∷◌ d t) x y (_, h, p) (_, k, q) e =
    let (same, rest) =
      utf8_char_injective (code c) (code d) (bytes_of s ++ (b',' ∷ x)) (bytes_of t ++ (b',' ∷ y)) h
        k
        (sym (append_assoc (utf8_char (code c)) (bytes_of s) (b',' ∷ x))
          ∙ e
          ∙ append_assoc (utf8_char (code d)) (bytes_of t) (b',' ∷ y)) in
    let (texts, after) = bytes_of-injective s t x y p q rest in
    (ap (λ a. String.◌∷◌ a s) (Char-path c d same) ∙ ap (String.◌∷◌ d) texts, after)

pub json_number-injective :
    (m n : ℤ) (x y : List ℕ)
    → Fits m
    → Fits n
    → json_number m (b',' ∷ x) ≡ json_number n (b',' ∷ y)
    → (m ≡ n) × (x ≡ y)
unfolding json_number
json_number-injective m n x y h k e =
    let (texts, after) =
      bytes_of-injective (itoa_int m) (itoa_int n) x y (itoa_int-Plain m) (itoa_int-Plain n) e in
    (sym (atoi-itoa_int m h) ∙ ap atoi texts ∙ atoi-itoa_int n k, after)
