-- ===== src/Features/SelfSpecs.antt =====
-- crates/rb-feature-resolver/src/resolver.rs: which specs `as_self_feature` takes.
use rustacean.Common.{
  ℕ, String, ◌≡◌, ◌≢◌, refl, sym, ap, ◌∙◌, ◌↔◌, inl, inr, Bool, true, false, ◌||◌, Option, none,
  some, List, [], ◌∷◌, ◌++◌, ◌==◌, ==_iff, if◌then◌else◌, arith, Bool-cases, true_not_false,
}
use rustacean.Common.Bytes.{codes, strip_prefix, has_byte, strip_prefix-append, strip_prefix-some}
use rustacean.Common.Every.{In}
use rustacean.Features.{as_self_feature, starts_with_dep, has_slash, is_some}
use rustacean.Features.Spec.{IsSelf}

has_byte-In : (c : ℕ) (bs : List ℕ) → has_byte c bs ≡ true → In c bs
has_byte-In c [] h = cc
has_byte-In c (b ∷ bs) h = elim (Bool-cases (b == c)) [
  | inl e ↦ inl (sym ((==_iff b c).0 e))
  | inr e ↦ inr (has_byte-In c bs (ground arith))
]

In-has_byte : (c : ℕ) (bs : List ℕ) → In c bs → has_byte c bs ≡ true
In-has_byte c [] m = elim m [ ]
In-has_byte c (b ∷ bs) (inl e) = let q = (==_iff b c).1 (sym e) in rw q
In-has_byte c (b ∷ bs) (inr m) = let q = In-has_byte c bs m in ground arith

is_some-some : {A : Type 0} (o : Option A) → is_some o ≡ true → (a : A) × (o ≡ some a)
is_some-some none h = cc
is_some-some (some a) h = (a, refl)

no_dep_iff :
    (spec : String)
    → (starts_with_dep spec ≡ false) ↔ ((rest : List ℕ) → codes spec ≢ codes "dep:" ++ rest)
no_dep_iff spec = (
  λ h rest e.
      true_not_false
        (ap is_some (ap (strip_prefix (codes "dep:")) e ∙ strip_prefix-append (codes "dep:") rest))
        h,
  λ h. elim (Bool-cases (starts_with_dep spec)) [
    | inl e ↦
        let (rest, q) = is_some-some (strip_prefix (codes "dep:") (codes spec)) e in
        absurd (h rest (strip_prefix-some (codes "dep:") (codes spec) rest q))
    | inr e ↦ e
  ],
)

pub as_self_feature_iff :
    (spec name : String) → (as_self_feature spec ≡ some name) ↔ IsSelf spec name
unfolding as_self_feature
as_self_feature_iff spec name = go (starts_with_dep spec) (has_slash spec) refl refl
  where
    some_injective : {a b : String} → some a ≡ some b → a ≡ b
    some_injective e = cc

    no : none ≡ some name → ⊥
    no e = cc

    go :
        (d s : Bool)
        → starts_with_dep spec ≡ d
        → has_slash spec ≡ s
        → ((if d || s then none else some spec) ≡ some name) ↔ IsSelf spec name
    go true s p q =
        (λ e. absurd (no e), λ i. absurd (true_not_false p ((no_dep_iff spec).1 i.no_dep)))
    go false true p q =
        (λ e. absurd (no e), λ i. absurd (i.no_slash (has_byte-In b'/' (codes spec) q)))
    go false false p q = (
      λ e. record {
        same = some_injective e;
        no_dep = (no_dep_iff spec).0 p;
        no_slash = λ m. true_not_false (In-has_byte b'/' (codes spec) m) q;
      },
      λ i. ap some i.same,
    )
