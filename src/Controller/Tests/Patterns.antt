-- ===== src/Controller/Tests/Patterns.antt =====
-- api/v1alpha1/jprqtunnel_types.go: a matcher for the pattern of `Subdomain`, for the tests.
use mathlib.Core.Option.{some-injective}
use mathlib.Core.Path.{subst}
use jprq_bek.Base.{
  ℕ, suc, ◌≤◌, ◌≡◌, inl, inr, refl, sym, Bool, Bool-cases, true, false, not, ◌&&◌, List, [], ◌∷◌,
  Option, none, some, leb, ◌=ℕ=◌, if◌then◌else◌, arith,
}
use jprq_bek.Api.Admission.Subdomains.{
  is_alnum, letter, hyphenated, Pieces, no_piece, piece_and, Matches, both_true,
}

abbrev pub count : Option ℕ → Option ℕ
count none = none
count (some n) = some (suc n)

-- How often `(?:[a-z0-9]|-[a-z0-9])` is repeated up to the end; the flag says that a hyphen has been
-- read of which the character is still to come.
unfoldable pub repeats : Bool → List ℕ → Option ℕ
repeats true [] = none
repeats false [] = some 0
repeats hyphen (c ∷ cs) =
    let plain = repeats false cs in
    let dashed = repeats true cs in
    if is_alnum c then count plain else if c =ℕ= b'-' && not hyphen then dashed else none

-- `{2,37}`
abbrev pub between : ℕ → ℕ → Option ℕ → Bool
between low high none = false
between low high (some n) = leb low n && leb n high

-- The pattern of `Subdomain`.
unfoldable pub matches_pattern : List ℕ → Bool
unfolding repeats
matches_pattern [] = false
matches_pattern (c ∷ cs) = is_alnum c && between 2 37 (repeats false cs)

-- Behind a hyphen: a letter and then pieces.
record Hyphened (n : ℕ) (l : List ℕ) : Type 0 where
  before : ℕ
  c : ℕ
  rest : List ℕ
  number : n ≡ suc before
  parts : l ≡ c ∷ rest
  alnum : is_alnum c ≡ true
  pieces : Pieces before rest

abbrev Found : Bool → ℕ → List ℕ → Type 0
Found true n l = Hyphened n l
Found false n l = Pieces n l

counted : (o : Option ℕ) (n : ℕ) → count o ≡ some n → (m : ℕ) × (o ≡ some m) × (n ≡ suc m)
counted none n h = absurd (ground arith)
counted (some m) n h = (m, refl, some-injective n (suc m) (sym h))

Found-letter :
    (hyphen : Bool) (c : ℕ) (cs : List ℕ) (m n : ℕ)
    → is_alnum c ≡ true
    → n ≡ suc m
    → Pieces m cs
    → Found hyphen n (c ∷ cs)
Found-letter true c cs m n h e p = record {
  before = m;
  c = c;
  rest = cs;
  number = e;
  parts = refl;
  alnum = h;
  pieces = p;
}
Found-letter false c cs m n h e p =
    subst (λ k. Pieces k (c ∷ cs)) (sym e) (piece_and m (c ∷ []) cs (letter c h) p)

found_hyphen : (c : ℕ) (cs : List ℕ) (n : ℕ) → c ≡ b'-' → Hyphened n cs → Pieces n (c ∷ cs)
found_hyphen c cs n e h =
    rw (e, h.number, h.parts)
      (piece_and h.before (b'-' ∷ h.c ∷ []) h.rest (hyphenated h.c h.alnum) h.pieces)

repeats-Found : (hyphen : Bool) (l : List ℕ) (n : ℕ) → repeats hyphen l ≡ some n → Found hyphen n l
unfolding repeats
repeats-Found true [] n h = absurd (ground arith)
repeats-Found false [] n h = subst (λ k. Pieces k []) (some-injective 0 n h) no_piece
repeats-Found hyphen (c ∷ cs) n h = elim (Bool-cases (is_alnum c)) [
  | inl alnum ↦
      let (m, e, s) = counted (repeats false cs) n (rw alnum at h) in
      Found-letter hyphen c cs m n alnum s (repeats-Found false cs m e)
  | inr other ↦ behind hyphen (rw other at h) (repeats-Found true cs n)
]
  where
    behind :
        (hyphen : Bool)
        → (if c =ℕ= b'-' && not hyphen then repeats true cs else none) ≡ some n
        → (repeats true cs ≡ some n → Hyphened n cs)
        → Found hyphen n (c ∷ cs)
    behind true h found = absurd (ground arith)
    behind false h found = elim (Bool-cases (c =ℕ= b'-')) [
      | inl dash ↦ found_hyphen c cs n (ground arith) (found (rw dash at h))
      | inr other ↦ absurd (ground arith)
    ]

in_range : (o : Option ℕ) → between 2 37 o ≡ true → (n : ℕ) × (o ≡ some n) × (2 ≤ n) × (n ≤ 37)
in_range none h = absurd (ground arith)
in_range (some n) h = (n, refl, ground arith, ground arith)

pub matches_pattern-Matches : (l : List ℕ) → matches_pattern l ≡ true → Matches l
unfolding matches_pattern
matches_pattern-Matches [] h = absurd (ground arith)
matches_pattern-Matches (c ∷ cs) h =
    let (alnum, range) = both_true (is_alnum c) _ h in
    let (n, e, low, high) = in_range (repeats false cs) range in
    record {
      first = c;
      rest = cs;
      number = n;
      parts = refl;
      first_alnum = alnum;
      pieces = repeats-Found false cs n e;
      at_least = low;
      at_most = high;
    }
