-- ===== src/Common/Results.antt =====
-- `Result`, with what the code chains it by.
use mathlib.Core.Path.{◌≡◌}

pub data Result (A E : Type 0) : Type 0 where
  ok : A → Result A E
  err : E → Result A E

infixl 5 ◌>>=◌
abbrev pub ◌>>=◌ : {A B E : Type 0} → Result A E → (A → Result B E) → Result B E
ok a >>= f = f a
err e >>= f = err e

-- `Result::map_err`
abbrev pub map_err : {A E F : Type 0} → (E → F) → Result A E → Result A F
map_err f (ok a) = ok a
map_err f (err e) = err (f e)

module _ {A E : Type 0} where
  -- Two results, so that the equations below need no annotation.
  abbrev Same : Result A E → Result A E → Type 0
  Same x y = x ≡ y

  pub ok_injective : {a b : A} → Same (ok a) (ok b) → a ≡ b
  ok_injective e = cc

  pub err_injective : {d e : E} → Same (err d) (err e) → d ≡ e
  err_injective h = cc

  pub ok_not_err : {a : A} {e : E} → Same (ok a) (err e) → ⊥
  ok_not_err h = cc
