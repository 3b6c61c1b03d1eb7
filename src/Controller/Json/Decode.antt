-- ===== src/Controller/Json/Decode.antt =====
-- encoding/json: reading back a character of `Marshal`.
use jprq_bek.Base.{
  ◌≡◌, ◌≢◌, refl, ap, ◌∙◌, Bool, true, false, ◌||◌, ℕ, zero, suc, ◌+◌, ◌-◌, ◌*◌, ◌/◌, ◌%◌, ◌<◌,
  List, [], ◌∷◌, ◌++◌, ltb, ◌=ℕ=◌, if◌then◌else◌, utf8_char, arith,
}
use jprq_bek.Controller.Json.{hex_digit, short, long, json_char}

-- The character that stands behind a backslash.
abbrev unescaped : ℕ → ℕ
unescaped b =
    if b =ℕ= b'b'
    then 8
    else if b =ℕ= b't'
    then 9
    else if b =ℕ= b'n'
    then 10
    else if b =ℕ= b'f'
    then 12
    else if b =ℕ= b'r'
    then 13
    else b

abbrev hex_value : ℕ → ℕ
hex_value b = if ltb b 58 then b - b'0' else b - 87

-- The number of four hexadecimal digits.
abbrev hex4 : ℕ → ℕ → ℕ → ℕ → ℕ
hex4 a b c d = hex_value a * 4096 + hex_value b * 256 + hex_value c * 16 + hex_value d

abbrev pub byte_at : List ℕ → ℕ → ℕ
byte_at [] i = 0
byte_at (b ∷ bytes) zero = b
byte_at (b ∷ bytes) (suc i) = byte_at bytes i

abbrev pub drop : ℕ → List ℕ → List ℕ
drop zero bytes = bytes
drop (suc n) [] = []
drop (suc n) (b ∷ bytes) = drop n bytes

-- The character that the bytes begin with, with what follows it, for bytes that begin with a whole
-- character.
unfoldable pub decode : List ℕ → ℕ × List ℕ
decode l =
    let b = byte_at l 0 in
    let c = byte_at l 1 in
    if b =ℕ= b'\\'
    then (if c =ℕ= b'u'
        then (hex4 (byte_at l 2) (byte_at l 3) (byte_at l 4) (byte_at l 5), drop 6 l)
        else (unescaped c, drop 2 l))
    else if ltb b 0x80
    then (b, drop 1 l)
    else if ltb b 0xE0
    then ((b - 0xC0) * 64 + (c - 0x80), drop 2 l)
    else if ltb b 0xF0
    then ((b - 0xE0) * 4096 + (c - 0x80) * 64 + (byte_at l 2 - 0x80), drop 3 l)
    else (
      (b - 0xF0) * 262144 + (c - 0x80) * 4096 + (byte_at l 2 - 0x80) * 64 + (byte_at l 3 - 0x80),
      drop 4 l,
    )

decode-short : (c : ℕ) (x : List ℕ) → c ≢ b'u' → decode (short c ++ x) ≡ (unescaped c, x)
unfolding decode
decode-short c x h = ground arith

decode-long : (hi c d : ℕ) (x : List ℕ) → decode (long hi c d ++ x) ≡ (hex4 hi b'0' c d, x)
unfolding decode
decode-long hi c d x = refl

pub decode-utf8_char : (c : ℕ) (x : List ℕ) → c ≢ b'\\' → decode (utf8_char c ++ x) ≡ (c, x)
unfolding decode
decode-utf8_char c x h = ground arith

-- A character below 256 is `\u00XX`.
hex4-hex_digit : (c : ℕ) → c < 256 → hex4 b'0' b'0' (hex_digit (c / 16)) (hex_digit (c % 16)) ≡ c
hex4-hex_digit c h = ground arith

below : (c : ℕ) → (ltb c 32 || c =ℕ= b'<' || c =ℕ= b'>' || c =ℕ= b'&') ≡ true → c < 256
below c h = ground arith

separator :
    (c : ℕ) → (c =ℕ= 0x2028 || c =ℕ= 0x2029) ≡ true → hex4 b'2' b'0' b'2' (hex_digit (c % 16)) ≡ c
separator c h = ground arith

no_backslash : (c : ℕ) → (c =ℕ= b'"' || c =ℕ= b'\\') ≡ false → c ≢ b'\\'
no_backslash c h = ground arith

module _ (c : ℕ) (x : List ℕ) where
  -- The bytes stand for the character.
  abbrev Reads : List ℕ → Type 0
  Reads l = decode (l ++ x) ≡ (c, x)

  Reads-if :
      (b : Bool) (l m : List ℕ)
      → (b ≡ true → Reads l)
      → (b ≡ false → Reads m)
      → Reads (if b then l else m)
  Reads-if true l m h k = h refl
  Reads-if false l m h k = k refl

  Reads-short : (e : ℕ) → e ≢ b'u' → unescaped e ≡ c → Reads (short e)
  Reads-short e h u = decode-short e x h ∙ ap (λ d. (d, x)) u

  Reads-long : (hi a b : ℕ) → hex4 hi b'0' a b ≡ c → Reads (long hi a b)
  Reads-long hi a b u = decode-long hi a b x ∙ ap (λ d. (d, x)) u

-- What `Marshal` writes for a character, in front of anything, begins with that character.
pub decode-json_char : (c : ℕ) (x : List ℕ) → decode (json_char c ++ x) ≡ (c, x)
unfolding json_char
decode-json_char c x =
    Reads-if c x (c =ℕ= b'"' || c =ℕ= b'\\') _ _
      (λ h. Reads-short c x c (ground arith) (ground arith))
      λ quote.
        Reads-if c x (c =ℕ= 8) _ _ (λ h. Reads-short c x b'b' (omega arith) (ground arith))
          λ _.
            Reads-if c x (c =ℕ= 9) _ _ (λ h. Reads-short c x b't' (omega arith) (ground arith))
              λ _.
                Reads-if c x (c =ℕ= 10) _ _ (λ h. Reads-short c x b'n' (omega arith) (ground arith))
                  λ _.
                    Reads-if c x (c =ℕ= 12) _ _
                      (λ h. Reads-short c x b'f' (omega arith) (ground arith))
                      λ _.
                        Reads-if c x (c =ℕ= 13) _ _
                          (λ h. Reads-short c x b'r' (omega arith) (ground arith))
                          λ _.
                            Reads-if c x (ltb c 32 || c =ℕ= b'<' || c =ℕ= b'>' || c =ℕ= b'&') _ _
                              (λ h. Reads-long c x b'0' _ _ (hex4-hex_digit c (below c h)))
                              λ _.
                                Reads-if c x (c =ℕ= 0x2028 || c =ℕ= 0x2029) _ _
                                  (λ h. Reads-long c x b'2' b'2' _ (separator c h))
                                  λ _. decode-utf8_char c x (no_backslash c quote)
