-- ===== src/Redact/Writes.antt =====
-- crates/rb-secrets/src/redact.rs: the scans that write the placeholder for each match.
use rustacean.Common.{
  ℕ, ◌≡◌, refl, sym, ap, ◌∙◌, subst, Bool, true, false, Option, none, some, List, [], ◌++◌, arith,
  if◌then◌else◌,
}
use rustacean.Common.Bytes.{codes, starts_with, has_substring}
use rustacean.Redact.{redacted_secret, scan, replace_cut, key_cut}
use rustacean.Redact.Cuts.{Cut, Apart, Fits, puts, scan-Cut, scan-has_substring}

pub if_some :
    {A : Type 0} (b : Bool) (x y : A)
    → if◌then◌else◌ {A = Option A} b (some x) none ≡ some y
    → (b ≡ true) × (x ≡ y)
if_some true x y e = (refl, some_injective e)
  where
    some_injective : some x ≡ some y → x ≡ y
    some_injective e = cc
if_some false x y e = cc

pub if_none :
    {A : Type 0} (b : Bool) (x : A)
    → if◌then◌else◌ {A = Option A} b (some x) none ≡ none
    → b ≡ false
if_none true x e = cc
if_none false x e = refl

-- A cut that writes the placeholder for each match of a pattern.
pub record Writes (p t : List ℕ) (cut : List ℕ → Option (List ℕ × ℕ)) : Type 0 where
  matches : (s : List ℕ) → cut s ≡ none → starts_with t s ≡ false
  writes : (s out : List ℕ) (n : ℕ) → cut s ≡ some (out, n) → out ≡ p

module _ (p t : List ℕ) (cut : List ℕ → Option (List ℕ × ℕ)) (w : Writes p t cut) where
  Writes-Fits : (s out : List ℕ) (n : ℕ) → cut s ≡ some (out, n) → Fits p s out n
  Writes-Fits s out n e =
      subst (λ out. Fits p s out n) (sym (w.writes s out n e))
        (puts s n 0 (omega arith) (omega arith))

  pub Writes-Cut : (s : List ℕ) → Cut p s (scan cut 0 s)
  Writes-Cut = scan-Cut p cut Writes-Fits

  pub Writes-has_substring :
      Apart p t → starts_with t [] ≡ false → (s : List ℕ) → has_substring t (scan cut 0 s) ≡ false
  Writes-has_substring apart nonempty =
      scan-has_substring p t cut Writes-Fits apart nonempty w.matches (λ s out n e u h back.
        subst (λ out. has_substring t (out ++ u) ≡ false) (sym (w.writes s out n e))
          (apart.passes u ∙ h))

pub key_cut-Writes : Writes redacted_secret (codes "rb_live_") key_cut
unfolding key_cut
key_cut-Writes = record {
  matches = λ s e. if_none (starts_with (codes "rb_live_") s) _ e;
  writes = λ s out n e. ap (λ c. c.0) (sym (if_some (starts_with (codes "rb_live_") s) _ _ e).1);
}

pub replace_cut-Writes : (p t : List ℕ) → Writes p t (replace_cut t p)
replace_cut-Writes p t = record {
  matches = λ s e. if_none (starts_with t s) _ e;
  writes = λ s out n e. ap (λ c. c.0) (sym (if_some (starts_with t s) _ _ e).1);
}
