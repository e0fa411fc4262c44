-- ===== src/Common/Names.antt =====
-- Membership of a string in a list.
use mathlib.Core.Path.{◌≡◌}
use mathlib.Core.Logic.{inl, inr}
use mathlib.Core.Bool.{Bool, true, false, ◌||◌}
use mathlib.Core.List.{List, [], ◌∷◌}
use native.Mathlib.Omega.{arith}
use Prim.Native.String.{String}
use rustacean.Common.Tests.{Bool-cases}
use rustacean.Common.Every.{In}
use text.Mathlib.Text.{◌==◌}
use text.Mathlib.TextEquality.{eq_iff}

-- `HashSet::contains`, `BTreeSet::contains`
abbrev pub contains : List String → String → Bool
contains [] a = false
contains (x ∷ xs) a = a == x || contains xs a

pub contains→In : (xs : List String) (a : String) → contains xs a ≡ true → In a xs
contains→In [] a h = cc
contains→In (x ∷ xs) a h = elim (Bool-cases (a == x)) [
  | inl e ↦ inl ((eq_iff a x).0 e)
  | inr e ↦ inr (contains→In xs a (ground arith))
]

pub In→contains : (xs : List String) (a : String) → In a xs → contains xs a ≡ true
In→contains [] a m = elim m [ ]
In→contains (x ∷ xs) a (inl e) = ground (arith, (eq_iff a x).1 e)
In→contains (x ∷ xs) a (inr m) = ground (arith, In→contains xs a m)

pub not-In : (xs : List String) (a : String) → contains xs a ≡ false → ¬ In a xs
not-In xs a e m = let h = In→contains xs a m in cc
