-- ===== src/Base/Decimal.antt =====
-- `%d` of package fmt: an integer in decimal.
use Prim.Native.Nat.{ℕ, zero, suc, ◌/◌, ◌%◌}
use Prim.Native.String.{String}
use jprq_bek.Base.Checks.{◌<>◌, ltb, if◌then◌else◌}
use jprq_bek.Base.Int.{ℤ, pos, negsuc}

abbrev pub digit : ℕ → String
digit zero = "0"
digit (suc zero) = "1"
digit (suc (suc zero)) = "2"
digit (suc (suc (suc zero))) = "3"
digit (suc (suc (suc (suc zero)))) = "4"
digit (suc (suc (suc (suc (suc zero))))) = "5"
digit (suc (suc (suc (suc (suc (suc zero)))))) = "6"
digit (suc (suc (suc (suc (suc (suc (suc zero))))))) = "7"
digit (suc (suc (suc (suc (suc (suc (suc (suc zero)))))))) = "8"
digit _ = "9"

-- The digits of n in front of the text that is already out; a number has at most as many digits as
-- its fuel.
unfoldable pub print_from : ℕ → ℕ → String → String
print_from zero n out = out
print_from (suc fuel) n out =
    let longer = digit (n % 10) <> out in
    let rest = print_from fuel (n / 10) longer in if ltb n 10 then longer else rest

unfoldable pub itoa : ℕ → String
unfolding print_from
itoa n = print_from (suc n) n ""

unfoldable pub itoa_int : ℤ → String
unfolding itoa
itoa_int (pos n) = itoa n
itoa_int (negsuc n) = "-" <> itoa (suc n)
