-- ===== src/Features/Total.antt =====
-- crates/rb-feature-resolver/src/resolver.rs: the expansion ends within its iterations.
use rustacean.Common.{
  ℕ, zero, suc, String, ◌≡◌, refl, sym, ap, ◌∙◌, inl, inr, Bool, true, false, List, [], ◌∷◌,
  if◌then◌else◌, arith, Bool-cases, ◌+◌, ◌≤◌, ◌<◌, ◌||◌, length,
}
use rustacean.Common.Every.{In}
use rustacean.Common.Results.{ok}
use rustacean.Features.{CargoManifest, get, declares, is_some, enqueue, expand}
use text.Mathlib.Text.{◌==◌}
use text.Mathlib.TextEquality.{eq_iff}
use rustacean.Common.Names.{contains}
use rustacean.Features.Expand.{enqueue_iff, expand-seen, expand-new}

module _ (m : CargoManifest) where
  -- The declared features that are not resolved.
  abbrev pub missing : List (String × List String) → List String → ℕ
  missing [] resolved = 0
  missing ((a, specs) ∷ entries) resolved =
      (if contains resolved a then 0 else 1) + missing entries resolved

  missing-le :
      (entries : List (String × List String)) (a : String) (resolved : List String)
      → missing entries (a ∷ resolved) ≤ missing entries resolved
  missing-le [] a resolved = omega arith
  missing-le ((b, specs) ∷ entries) a resolved =
      let h = missing-le entries a resolved in
      elim (Bool-cases (b == a)) [ inl e ↦ rw e (ground arith) | inr e ↦ rw e (ground arith) ]

  missing-lt :
      (entries : List (String × List String)) (a : String) (resolved : List String)
      → is_some (get entries a) ≡ true
      → contains resolved a ≡ false
      → missing entries (a ∷ resolved) < missing entries resolved
  missing-lt [] a resolved h e = cc
  missing-lt ((b, specs) ∷ entries) a resolved h e =
      let le = missing-le entries a resolved in
      elim (Bool-cases (a == b)) [
        | inl q ↦
            let p = (eq_iff a b).0 q in
            let here : contains (a ∷ resolved) b ≡ true = ground (arith, (eq_iff b a).1 (sym p)) in
            let there : contains resolved b ≡ false = ap (contains resolved) (sym p) ∙ e in
            rw (here, there) (omega arith)
        | inr q ↦
            let rest = missing-lt entries a resolved (rest_of q h) e in
            go (contains resolved b) (b == a) rest
      ]
    where
      rest_of :
          (a == b) ≡ false
          → is_some (get ((b, specs) ∷ entries) a) ≡ true
          → is_some (get entries a) ≡ true
      rest_of q h = sym (rw q refl) ∙ h

      go :
          (x y : Bool)
          → missing entries (a ∷ resolved) < missing entries resolved
          → (if (y || x) then 0 else 1) + missing entries (a ∷ resolved)
            < (if x then 0 else 1) + missing entries resolved
      go x y h = ground arith

  -- The loop returns a result if no more features are left than iterations.
  pub expand_total :
      (left : ℕ) (resolved pending : List String)
      → ((a : String) → In a pending → declares m a ≡ true)
      → missing m.features resolved ≤ left
      → (r : List String) × (expand m left resolved pending ≡ ok r)
  unfolding expand
  expand_total left resolved [] d h = (resolved, refl)
  expand_total zero resolved (a ∷ pending) d h = elim (Bool-cases (contains resolved a)) [
    | inl e ↦
        let (r, k) = expand_total zero resolved pending (λ z l. d z (inr l)) h in
        (r, expand-seen m zero a resolved pending e ∙ k)
    | inr e ↦ let lt = missing-lt m.features a resolved (d a (inl refl)) e in absurd (omega arith)
  ]
  expand_total (suc left) resolved (a ∷ pending) d h = elim (Bool-cases (contains resolved a)) [
    | inl e ↦
        let (r, k) = expand_total (suc left) resolved pending (λ z l. d z (inr l)) h in
        (r, expand-seen m (suc left) a resolved pending e ∙ k)
    | inr e ↦
        let lt = missing-lt m.features a resolved (d a (inl refl)) e in
        let (r, k) =
          expand_total left (a ∷ resolved) (enqueue m (a ∷ resolved) a pending)
            (λ z l. elim ((enqueue_iff m a z (a ∷ resolved) pending).0 l) [
              | inl o ↦ d z (inr o)
              | inr (n, _) ↦ n.known
            ])
            (omega arith) in
        (r, expand-new m left a resolved pending e ∙ k)
  ]

  pub missing_bound :
      (entries : List (String × List String)) (resolved : List String)
      → missing entries resolved ≤ length entries
  missing_bound [] resolved = omega arith
  missing_bound ((a, specs) ∷ entries) resolved =
      let h = missing_bound entries resolved in
      elim (Bool-cases (contains resolved a)) [
        | inl e ↦ rw e (omega arith)
        | inr e ↦ rw e (omega arith)
      ]
