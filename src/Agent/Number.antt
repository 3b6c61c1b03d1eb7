-- ===== src/Agent/Number.antt =====
-- `strconv.Atoi`, as cli/main.go uses it: the number, whose error is thrown away. An int has 64 bits.
pub mod RoundTrip
use Prim.Native.Char.{Char, code}
use Prim.Native.String
use jprq_bek.Base.{
  ℕ, ◌+◌, ◌-◌, ◌*◌, ◌^◌, String, Bool, true, false, ◌||◌, ltb, leb, ◌&&◌, ◌=ℕ=◌, if◌then◌else◌, ℤ,
  pos, negsuc,
}

-- How reading an unsigned number ends: with the number, at a character that is no digit, or past
-- 64 bits.
pub data Scanned : Type 0 where
  scanned : ℕ → Scanned
  bad_syntax : Scanned
  out_of_range : Scanned

abbrev is_digit : ℕ → Bool
is_digit c = leb b'0' c && leb c b'9'

-- The loop of `ParseUint` in base 10, behind n. It stops at the digit that does not fit.
unfoldable pub scan : String → ℕ → Scanned
scan String.[] n = scanned n
scan (String.◌∷◌ c s) n =
    let d = code c - b'0' in
    let rest = scan s (n * 10 + d) in
    if is_digit (code c)
    then (if ltb (n * 10 + d) (2 ^ 64) then rest else out_of_range)
    else bad_syntax

scan_text : String → Scanned
unfolding scan
scan_text String.[] = bad_syntax
scan_text (String.◌∷◌ c s) = scan (String.◌∷◌ c s) 0

-- The number behind a sign: a number that does not fit becomes the nearest that does.
abbrev pub positive : Scanned → ℤ
positive bad_syntax = pos 0
positive out_of_range = pos (2 ^ 63 - 1)
positive (scanned n) = if ltb n (2 ^ 63) then pos n else pos (2 ^ 63 - 1)

abbrev pub negative : Scanned → ℤ
negative bad_syntax = pos 0
negative out_of_range = negsuc (2 ^ 63 - 1)
negative (scanned n) =
    if n =ℕ= 0 then pos 0 else if leb n (2 ^ 63) then negsuc (n - 1) else negsuc (2 ^ 63 - 1)

unfoldable pub atoi : String → ℤ
unfolding scan_text scan
atoi String.[] = pos 0
atoi (String.◌∷◌ c s) =
    if code c =ℕ= b'-'
    then negative (scan_text s)
    else if code c =ℕ= b'+'
    then positive (scan_text s)
    else positive (scan_text (String.◌∷◌ c s))
