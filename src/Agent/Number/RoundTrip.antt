-- ===== src/Agent/Number/RoundTrip.antt =====
-- strconv.Atoi behind fmt's `%d`.
use Prim.Native.Char.{Char, code}
use text.Mathlib.TextLemmas.{nil-append, cons-append}
use jprq_bek.Base.{
  ◌≡◌, refl, ap, ◌∙◌, ℕ, zero, suc, ◌+◌, ◌-◌, ◌*◌, ◌/◌, ◌%◌, ◌^◌, ◌<◌, String, ◌<>◌, Bool-cases,
  ltb, inl, inr, ℤ, pos, negsuc, itoa, itoa_int, print_from, digit, arith,
}
use jprq_bek.Agent.Number.{scanned, scan, scan_text, negative, atoi}

-- The integers of 64 bits.
abbrev pub Fits : ℤ → Type 0
Fits (pos n) = n < 2 ^ 63
Fits (negsuc n) = n < 2 ^ 63

single : (c : Char) (s : String) → (String.◌∷◌ c String.[] <> s) ≡ String.◌∷◌ c s
single c s = cons-append c String.[] s ∙ ap (String.◌∷◌ c) (nil-append s)

scan-char :
    (c : Char) (d n : ℕ) (s : String)
    → code c ≡ d + 48
    → d < 10
    → n * 10 + d < 2 ^ 64
    → scan (String.◌∷◌ c s) n ≡ scan s (n * 10 + d)
unfolding scan
scan-char c d n s h k l = ground (arith, ap (λ m. scan s (n * 10 + m)) e)
  where
    e : code c - 48 ≡ d
    e = omega (arith, h)

scan-digit :
    (d n : ℕ) (s : String)
    → d < 10
    → n * 10 + d < 2 ^ 64
    → scan (digit d <> s) n ≡ scan s (n * 10 + d)
scan-digit zero n s h k = ap (λ t. scan t n) (single "0" s) ∙ scan-char "0" 0 n s refl h k
scan-digit (suc zero) n s h k = ap (λ t. scan t n) (single "1" s) ∙ scan-char "1" 1 n s refl h k
scan-digit (suc (suc zero)) n s h k =
    ap (λ t. scan t n) (single "2" s) ∙ scan-char "2" 2 n s refl h k
scan-digit (suc (suc (suc zero))) n s h k =
    ap (λ t. scan t n) (single "3" s) ∙ scan-char "3" 3 n s refl h k
scan-digit (suc (suc (suc (suc zero)))) n s h k =
    ap (λ t. scan t n) (single "4" s) ∙ scan-char "4" 4 n s refl h k
scan-digit (suc (suc (suc (suc (suc zero))))) n s h k =
    ap (λ t. scan t n) (single "5" s) ∙ scan-char "5" 5 n s refl h k
scan-digit (suc (suc (suc (suc (suc (suc zero)))))) n s h k =
    ap (λ t. scan t n) (single "6" s) ∙ scan-char "6" 6 n s refl h k
scan-digit (suc (suc (suc (suc (suc (suc (suc zero))))))) n s h k =
    ap (λ t. scan t n) (single "7" s) ∙ scan-char "7" 7 n s refl h k
scan-digit (suc (suc (suc (suc (suc (suc (suc (suc zero)))))))) n s h k =
    ap (λ t. scan t n) (single "8" s) ∙ scan-char "8" 8 n s refl h k
scan-digit (suc (suc (suc (suc (suc (suc (suc (suc (suc zero))))))))) n s h k =
    ap (λ t. scan t n) (single "9" s) ∙ scan-char "9" 9 n s refl h k
scan-digit (suc (suc (suc (suc (suc (suc (suc (suc (suc (suc d)))))))))) n s h k =
    absurd (omega arith)

scan-last :
    (m n : ℕ) (out : String)
    → m * 10 + n % 10 ≡ n
    → n < 2 ^ 64
    → scan (digit (n % 10) <> out) m ≡ scan out n
scan-last m n out e k = scan-digit (n % 10) m out (omega arith) (omega (arith, e)) ∙ ap (scan out) e

-- The digits that are printed in front of a text are read first, and give the number.
scan-print_from :
    (fuel n : ℕ) (out : String)
    → n < fuel
    → n < 2 ^ 64
    → scan (print_from fuel n out) 0 ≡ scan out n
unfolding print_from
scan-print_from zero n out h k = absurd (omega arith)
scan-print_from (suc fuel) n out h k = elim (Bool-cases (ltb n 10)) [
  | inl last ↦ rw last (scan-last 0 n out (ground arith) k)
  | inr more ↦ rw more (
      scan-print_from fuel (n / 10) (digit (n % 10) <> out) (ground arith) (omega arith)
      ∙ scan-last (n / 10) n out (omega arith) k)
]

scan-itoa : (n : ℕ) → n < 2 ^ 64 → scan (itoa n) 0 ≡ scanned n
unfolding itoa scan
scan-itoa n h = scan-print_from (suc n) n String.[] (omega arith) h

-- A text that reads as a number has no sign in front.
atoi_of_scan : (s : String) (n : ℕ) → scan s 0 ≡ scanned n → n < 2 ^ 63 → atoi s ≡ pos n
unfolding atoi scan_text scan
atoi_of_scan String.[] n h k = ground arith
atoi_of_scan (String.◌∷◌ c s) n h k = ground arith

negative-scanned : (n : ℕ) → n < 2 ^ 63 → negative (scanned (suc n)) ≡ negsuc n
negative-scanned n h = ground arith

negative_of_scan :
    (s : String) (n : ℕ)
    → scan s 0 ≡ scanned (suc n)
    → n < 2 ^ 63
    → negative (scan_text s) ≡ negsuc n
unfolding scan_text scan
negative_of_scan String.[] n h k = ground arith
negative_of_scan (String.◌∷◌ c s) n h k = ap negative h ∙ negative-scanned n k

-- Every int that `%d` prints is the one that `strconv.Atoi` reads back.
pub atoi-itoa_int : (z : ℤ) → Fits z → atoi (itoa_int z) ≡ z
unfolding itoa_int atoi
atoi-itoa_int (pos n) h = atoi_of_scan (itoa n) n (scan-itoa n (omega arith)) h
atoi-itoa_int (negsuc n) h =
    ap atoi (single "-" (itoa (suc n)))
    ∙ negative_of_scan (itoa (suc n)) n (scan-itoa (suc n) (omega arith)) h
