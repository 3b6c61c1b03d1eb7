-- ===== src/Controller/Json.antt =====
-- encoding/json, as far as `specHash` of internal/controller/pod.go uses it: the bytes of a text and of
-- a number. `Marshal` escapes what is special in HTML too.
pub mod Decode
pub mod Injective
pub mod Numbers
use Prim.Native.Char.{code}
use jprq_bek.Base.{
  ℕ, ◌+◌, ◌-◌, ◌/◌, ◌%◌, String, List, [], ◌∷◌, ◌++◌, ◌=ℕ=◌, ◌||◌, ltb, if◌then◌else◌, ℤ, itoa_int,
  bytes_of, utf8_char,
}

abbrev pub hex_digit : ℕ → ℕ
hex_digit k = if ltb k 10 then b'0' + k else b'a' + (k - 10)

-- A backslash and a letter.
abbrev pub short : ℕ → List ℕ
short c = b'\\' ∷ c ∷ []

-- `\u00XX` of a byte, and `\u202X` of the two line separators.
abbrev pub long : ℕ → ℕ → ℕ → List ℕ
long hi c d = b'\\' ∷ b'u' ∷ hi ∷ b'0' ∷ c ∷ d ∷ []

-- One character, by its code point.
unfoldable pub json_char : ℕ → List ℕ
json_char c =
    if c =ℕ= b'"' || c =ℕ= b'\\'
    then short c
    else if c =ℕ= 8
    then short b'b'
    else if c =ℕ= 9
    then short b't'
    else if c =ℕ= 10
    then short b'n'
    else if c =ℕ= 12
    then short b'f'
    else if c =ℕ= 13
    then short b'r'
    else if ltb c 32 || c =ℕ= b'<' || c =ℕ= b'>' || c =ℕ= b'&'
    then long b'0' (hex_digit (c / 16)) (hex_digit (c % 16))
    else if c =ℕ= 0x2028 || c =ℕ= 0x2029
    then long b'2' b'2' (hex_digit (c % 16))
    else utf8_char c

-- The characters of a text, without the quotes.
unfoldable pub json_chars : String → List ℕ
unfolding json_char
json_chars String.[] = []
json_chars (String.◌∷◌ c s) = json_char (code c) ++ json_chars s

-- A text and a number, with what follows them.
unfoldable pub json_string : String → List ℕ → List ℕ
unfolding json_chars
json_string s rest = b'"' ∷ (json_chars s ++ (b'"' ∷ rest))

unfoldable pub json_number : ℤ → List ℕ → List ℕ
unfolding itoa_int bytes_of
json_number n rest = bytes_of (itoa_int n) ++ rest

-- A field of a struct, under its key.
pub data Member : Type 0 where
  text : String → String → Member
  number : String → ℤ → Member

unfoldable pub json_member : Member → List ℕ → List ℕ
unfolding json_string json_number
json_member (text key s) rest = json_string key (b':' ∷ json_string s rest)
json_member (number key n) rest = json_string key (b':' ∷ json_number n rest)

unfoldable pub json_more : List Member → List ℕ
unfolding json_member
json_more [] = b'}' ∷ []
json_more (m ∷ ms) = b',' ∷ json_member m (json_more ms)

-- `json.Marshal` of a struct with these fields, in the order of their declaration.
unfoldable pub json_object : List Member → List ℕ
unfolding json_member json_more
json_object [] = b'{' ∷ b'}' ∷ []
json_object (m ∷ ms) = b'{' ∷ json_member m (json_more ms)
