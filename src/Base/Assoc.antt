-- ===== src/Base/Assoc.antt =====
-- A Go map with string keys, as an association list. A key stands in it once at most, so the first
-- entry is the only one.
use Prim.Native.String.{String}
use mathlib.Core.Option.{Option, none, some, get_or}
use mathlib.Core.List.{List, [], ◌∷◌}
use jprq_bek.Base.Checks.{◌==◌, if◌then◌else◌}

-- `v, present := m[k]`
abbrev pub lookup {ℓ} : {V : Type ℓ} → String → List (String × V) → Option V
lookup k [] = none
lookup k ((j, v) ∷ m) = if j == k then some v else lookup k m

-- `m[k]` of a map to strings: the zero value on a missing key.
abbrev pub lookup_or_empty : String → List (String × String) → String
lookup_or_empty k m = get_or (lookup k m) ""
