-- ===== src/Api/Admission/Subdomains.antt =====
-- api/v1alpha1/jprqtunnel_types.go: the pattern of `Subdomain`, as a regular expression.
use jprq_bek.Base.{
  ℕ, suc, ◌≤◌, ◌≡◌, ◌⊎◌, inl, inr, refl, Bool, true, ◌&&◌, ◌||◌, leb, List, [], ◌∷◌, ◌++◌, arith,
}

-- `[a-z0-9]`
abbrev pub is_alnum : ℕ → Bool
is_alnum c = (leb b'a' c && leb c b'z') || (leb b'0' c && leb c b'9')

-- A text that `(?:[a-z0-9]|-[a-z0-9])` matches.
pub data Piece : List ℕ → Type 0 where
  letter : (c : ℕ) → is_alnum c ≡ true → Piece (c ∷ [])
  hyphenated : (c : ℕ) → is_alnum c ≡ true → Piece (b'-' ∷ c ∷ [])

-- A text that consists of so many pieces.
pub data Pieces : ℕ → List ℕ → Type 0 where
  no_piece : Pieces 0 []
  piece_and : (n : ℕ) (x y : List ℕ) → Piece x → Pieces n y → Pieces (suc n) (x ++ y)

-- A text that `^[a-z0-9](?:[a-z0-9]|-[a-z0-9]){2,37}$` matches.
pub record Matches (l : List ℕ) : Type 0 where
  pub first : ℕ
  pub rest : List ℕ
  pub number : ℕ
  pub parts : l ≡ first ∷ rest
  pub first_alnum : is_alnum first ≡ true
  pub pieces : Pieces number rest
  pub at_least : 2 ≤ number
  pub at_most : number ≤ 37

pub both_true : (a b : Bool) → (a && b) ≡ true → (a ≡ true) × (b ≡ true)
both_true a b h = ground arith

-- Letters, digits and hyphens, the last one no hyphen.
abbrev pub EndsWell : List ℕ → Type 0
EndsWell [] = Unit
EndsWell (c ∷ []) = is_alnum c ≡ true
EndsWell (c ∷ d ∷ cs) = ((is_alnum c ≡ true) ⊎ (c ≡ b'-')) × EndsWell (d ∷ cs)

pub before_EndsWell : (c : ℕ) (cs : List ℕ) → is_alnum c ≡ true → EndsWell cs → EndsWell (c ∷ cs)
before_EndsWell c [] h e = h
before_EndsWell c (d ∷ cs) h e = (inl h, e)

pub Pieces-EndsWell : (n : ℕ) (l : List ℕ) → Pieces n l → EndsWell l
Pieces-EndsWell _ _ no_piece = tt
Pieces-EndsWell _ _ (piece_and n _ y (letter c h) p) = before_EndsWell c y h (Pieces-EndsWell n y p)
Pieces-EndsWell _ _ (piece_and n _ y (hyphenated c h) p) =
    (inr refl, before_EndsWell c y h (Pieces-EndsWell n y p))
