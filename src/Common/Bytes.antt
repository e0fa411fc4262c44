-- ===== src/Common/Bytes.antt =====
-- Byte strings as lists of numbers below 256, and the ASCII tests of the Rust standard library.
use Prim.Native.Nat.{ℕ, ◌+◌, ◌-◌}
use Prim.Native.Char.{code}
use Prim.Native.String.{String}
use mathlib.Core.Path.{◌≡◌, refl, ap}
use mathlib.Core.Logic.{◌↔◌}
use mathlib.Core.Bool.{Bool, true, false, ◌&&◌, ◌||◌}
use mathlib.Core.List.{List, [], ◌∷◌, ◌++◌}
use mathlib.Core.Option.{Option, none, some}
use native.Mathlib.Omega.{arith}
use rustacean.Common.Tests.{leb, ◌==◌, if◌then◌else◌}

-- The code points of a literal, which are its bytes: every literal of the model is ASCII.
abbrev pub codes : String → List ℕ
codes String.[] = []
codes (String.◌∷◌ c s) = code c ∷ codes s

-- `u8::is_ascii_digit`, `is_ascii_uppercase`, `is_ascii_lowercase`
abbrev pub is_digit : ℕ → Bool
is_digit b = leb b'0' b && leb b b'9'

abbrev pub is_upper : ℕ → Bool
is_upper b = leb b'A' b && leb b b'Z'

abbrev pub is_lower : ℕ → Bool
is_lower b = leb b'a' b && leb b b'z'

-- `u8::is_ascii_alphabetic`, `is_ascii_alphanumeric`
abbrev pub is_alpha : ℕ → Bool
is_alpha b = is_upper b || is_lower b

abbrev pub is_alnum : ℕ → Bool
is_alnum b = is_alpha b || is_digit b

-- `u8::to_ascii_uppercase`
abbrev pub to_upper : ℕ → ℕ
to_upper b = if is_lower b then b - 32 else b

-- `==` on strings
abbrev pub eq_bytes : List ℕ → List ℕ → Bool
eq_bytes [] [] = true
eq_bytes [] (c ∷ cs) = false
eq_bytes (b ∷ bs) [] = false
eq_bytes (b ∷ bs) (c ∷ cs) = b == c && eq_bytes bs cs

pub eq_bytes→eq : (bs cs : List ℕ) → eq_bytes bs cs ≡ true → bs ≡ cs
eq_bytes→eq [] [] h = refl
eq_bytes→eq [] (c ∷ cs) h = cc
eq_bytes→eq (b ∷ bs) [] h = cc
eq_bytes→eq (b ∷ bs) (c ∷ cs) h = ground (arith, eq_bytes→eq bs cs)

pub eq_bytes_refl : (bs : List ℕ) → eq_bytes bs bs ≡ true
eq_bytes_refl [] = refl
eq_bytes_refl (b ∷ bs) = ground (arith, eq_bytes_refl bs)

pub eq_bytes_iff : (bs cs : List ℕ) → (eq_bytes bs cs ≡ true) ↔ (bs ≡ cs)
eq_bytes_iff bs cs = (eq_bytes→eq bs cs, λ e. subst_eq e)
  where
    subst_eq : bs ≡ cs → eq_bytes bs cs ≡ true
    subst_eq e = ground (arith, ap (eq_bytes bs) e, eq_bytes_refl bs)

-- `str::strip_prefix`
abbrev pub strip_prefix : List ℕ → List ℕ → Option (List ℕ)
strip_prefix [] bs = some bs
strip_prefix (p ∷ ps) [] = none
strip_prefix (p ∷ ps) (b ∷ bs) = let rest = strip_prefix ps bs in if p == b then rest else none

-- `str::contains` of an ASCII character
abbrev pub has_byte : ℕ → List ℕ → Bool
has_byte c [] = false
has_byte c (b ∷ bs) = b == c || has_byte c bs

-- `str::starts_with`, with the pattern first.
abbrev pub starts_with : List ℕ → List ℕ → Bool
starts_with [] bs = true
starts_with (p ∷ ps) [] = false
starts_with (p ∷ ps) (b ∷ bs) = p == b && starts_with ps bs

-- `str::contains` of a string
abbrev pub has_substring : List ℕ → List ℕ → Bool
has_substring t [] = starts_with t []
has_substring t (b ∷ bs) = starts_with t (b ∷ bs) || has_substring t bs

-- `u8::to_ascii_lowercase`
abbrev pub to_lower : ℕ → ℕ
to_lower b = if is_upper b then b + 32 else b

-- `u8::is_ascii_hexdigit`, `is_ascii_whitespace`
abbrev pub is_hex_digit : ℕ → Bool
is_hex_digit b = is_digit b || ((leb b'a' b && leb b b'f') || (leb b'A' b && leb b b'F'))

abbrev pub is_whitespace : ℕ → Bool
is_whitespace b = b == b' ' || (b == 9 || (b == 10 || (b == 12 || b == 13)))

pub strip_prefix-append : (ps bs : List ℕ) → strip_prefix ps (ps ++ bs) ≡ some bs
strip_prefix-append [] bs = refl
strip_prefix-append (p ∷ ps) bs = ground (arith, strip_prefix-append ps bs)

pub strip_prefix-some : (ps bs rest : List ℕ) → strip_prefix ps bs ≡ some rest → bs ≡ ps ++ rest
strip_prefix-some [] bs rest h = ground arith
strip_prefix-some (p ∷ ps) [] rest h = cc
strip_prefix-some (p ∷ ps) (b ∷ bs) rest h = ground (arith, strip_prefix-some ps bs rest)
