-- ===== src/Base/Int.antt =====
-- Go's signed integers, as far as the program compares and prints them.
use Prim.Native.Nat.{ℕ}
use mathlib.Core.Path.{◌≡◌}
use mathlib.Core.Logic.{◌↔◌}
use mathlib.Core.Bool.{Bool, true, false}
use native.Mathlib.Decide.{ℕ_discrete}
use native.Mathlib.Omega.{arith}
use jprq_bek.Base.Checks.{◌=ℕ=◌}

-- `negsuc n` is -(n + 1).
pub data ℤ : Type 0 where
  pos : ℕ → ℤ
  negsuc : ℕ → ℤ

infix 50 ◌=ℤ=◌
abbrev pub ◌=ℤ=◌ : ℤ → ℤ → Bool
pos a =ℤ= pos b = a =ℕ= b
negsuc a =ℤ= negsuc b = a =ℕ= b
_ =ℤ= _ = false

pub =ℤ=-iff : (a b : ℤ) → ((a =ℤ= b) ≡ true) ↔ (a ≡ b)
=ℤ=-iff (pos a) (pos b) = ground arith
=ℤ=-iff (negsuc a) (negsuc b) = ground arith
=ℤ=-iff (pos a) (negsuc b) = ground arith
=ℤ=-iff (negsuc a) (pos b) = ground arith

pub ℤ-discrete : Discrete ℤ
ℤ-discrete = hlevel ℕ_discrete
