-- ===== src/Base/Space.antt =====
-- `bytes.TrimSpace`: white space is what `unicode.IsSpace` accepts, in UTF-8.
use jprq_bek.Base.Checks.{◌=ℕ=◌, leb, if◌then◌else◌}
use Prim.Native.Nat.{ℕ}
use mathlib.Core.Bool.{Bool, true, false, ◌&&◌, ◌||◌}
use mathlib.Core.List.{List, [], ◌∷◌}

-- The white space of one byte, of two and of three.
abbrev space1 : ℕ → Bool
space1 a = a =ℕ= 32 || leb 9 a && leb a 13

abbrev space2 : ℕ → ℕ → Bool
space2 a b = a =ℕ= 0xC2 && (b =ℕ= 0x85 || b =ℕ= 0xA0)

abbrev space3 : ℕ → ℕ → ℕ → Bool
space3 a b c =
    a =ℕ= 0xE1 && b =ℕ= 0x9A && c =ℕ= 0x80
    || a =ℕ= 0xE2
      && (b =ℕ= 0x80 && (leb 0x80 c && leb c 0x8A || c =ℕ= 0xA8 || c =ℕ= 0xA9 || c =ℕ= 0xAF)
          || b =ℕ= 0x81 && c =ℕ= 0x9F)
    || a =ℕ= 0xE3 && b =ℕ= 0x80 && c =ℕ= 0x80

unfoldable pub trim_left : List ℕ → List ℕ
trim_left [] = []
trim_left (a ∷ []) = if space1 a then [] else a ∷ []
trim_left (a ∷ b ∷ []) = elim (space1 a) [
  | true ↦ trim_left (b ∷ [])
  | false ↦ if space2 a b then [] else a ∷ b ∷ []
]
trim_left (a ∷ b ∷ c ∷ l) = elim (space1 a) [
  | true ↦ trim_left (b ∷ c ∷ l)
  | false ↦ elim (space2 a b) [
    | true ↦ trim_left (c ∷ l)
    | false ↦ elim (space3 a b c) [ true ↦ trim_left l | false ↦ a ∷ b ∷ c ∷ l ]
  ]
]

abbrev pub is_nil : List ℕ → Bool
is_nil [] = true
is_nil (a ∷ l) = false

-- What is nothing but white space is dropped from the end.
unfoldable pub trim_right : List ℕ → List ℕ
unfolding trim_left
trim_right [] = []
trim_right (a ∷ l) = let rest = trim_right l in if is_nil (trim_left (a ∷ l)) then [] else a ∷ rest

unfoldable pub trim_space : List ℕ → List ℕ
unfolding trim_left trim_right
trim_space l = trim_right (trim_left l)
