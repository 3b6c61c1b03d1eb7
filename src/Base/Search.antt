-- ===== src/Base/Search.antt =====
-- A search of a list finds an element, or there is none.
use mathlib.Core.Path.{◌≡◌, refl}
use mathlib.Core.Bool.{Bool, true, false, ◌||◌}
use mathlib.Core.Logic.{inl, inr}
use mathlib.Core.List.{List, [], ◌∷◌, Memᴰ}
use native.Mathlib.Omega.{arith}
use jprq_bek.Base.Checks.{any, Bool-cases}

module _ {ℓ} {A : Type ℓ} (p : A → Bool) where
  pub any_found : (l : List A) → any p l ≡ true → (x : A) × Memᴰ x l × (p x ≡ true)
  any_found [] h = absurd (ground arith)
  any_found (x ∷ l) h = elim (Bool-cases (p x)) [
    | inl hit ↦ (x, Memᴰ.head refl, hit)
    | inr miss ↦ let (y, m, hit) = any_found l (rw miss at h) in (y, Memᴰ.tail m, hit)
  ]

  pub any_of_mem : {x : A} {l : List A} → Memᴰ x l → p x ≡ true → any p l ≡ true
  any_of_mem (Memᴰ.head {x = y} e) hit = rw (← e) (rw hit)
  any_of_mem (Memᴰ.tail {x = y} m) hit = rw (any_of_mem m hit) (or_true (p y))
    where
      or_true : (b : Bool) → (b || true) ≡ true
      or_true true = refl
      or_true false = refl
