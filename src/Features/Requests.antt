-- ===== src/Features/Requests.antt =====
-- crates/rb-feature-resolver/src/resolver.rs: the validation of the request, and the features of a list.
use rustacean.Common.{
  String, ◌≡◌, refl, sym, ap, ◌∙◌, subst, inl, inr, Bool, true, false, List, [], ◌∷◌, ◌++◌,
  if◌then◌else◌, Bool-cases,
}
use rustacean.Common.Every.{In}
use rustacean.Common.Results.{ok, err, ok_injective, ok_not_err, err_injective}
use rustacean.Features.{
  CargoManifest, FeatureResolveError, declares, package_name, push_requested, or_unknown,
  push_known, push_if, unknown_feature,
}
use rustacean.Features.Queue.{
  Adds, Adds-nothing, Adds-same, Adds-then, push_back-Adds, push_if-In, push_if-keeps, push_if-adds,
}

module _ (m : CargoManifest) where
  pub push_requested-Adds :
      (fs pending after : List String)
      → push_requested m fs pending ≡ ok after
      → Adds (λ b. In b fs) pending after × ((b : String) → In b fs → declares m b ≡ true)
  unfolding push_requested
  push_requested-Adds [] pending after h = (
    subst (Adds (λ b. ⊥) pending) (ok_injective h) (Adds-nothing (λ b. ⊥) pending (λ b k. k)),
    λ b k. elim k [ ],
  )
  push_requested-Adds (f ∷ fs) pending after h =
      go (push_requested-Adds fs (pending ++ (f ∷ [])) after) (declares m f) refl h
    where
      go :
          (push_requested m fs (pending ++ (f ∷ [])) ≡ ok after
            → Adds (λ b. In b fs) (pending ++ (f ∷ [])) after
              × ((b : String) → In b fs → declares m b ≡ true))
          → (t : Bool) → declares m f ≡ t
          → (if t
              then push_requested m fs (pending ++ (f ∷ []))
              else err (unknown_feature (or_unknown (package_name m)) f))
            ≡ ok after
          → Adds (λ b. In b (f ∷ fs)) pending after
            × ((b : String) → In b (f ∷ fs) → declares m b ≡ true)
      go more false e h = absurd (ok_not_err (sym h))
      go more true e h =
          let (a, d) = more h in
          (
            Adds-then (λ b. b ≡ f) (λ b. In b fs) pending (pending ++ (f ∷ [])) after
                (push_back-Adds f pending) a,
            λ b k. elim k [ inl q ↦ ap (declares m) q ∙ e | inr l ↦ d b l ],
          )

  pub push_requested_total :
      (fs pending : List String)
      → ((b : String) → In b fs → declares m b ≡ true)
      → (after : List String) × (push_requested m fs pending ≡ ok after)
  unfolding push_requested
  push_requested_total [] pending d = (pending, refl)
  push_requested_total (f ∷ fs) pending d =
      let (after, h) = push_requested_total fs (pending ++ (f ∷ [])) (λ b k. d b (inr k)) in
      (after, rw (d f (inl refl)) h)

  -- The error of a request names a feature that it has and that the manifest does not.
  pub push_requested-err :
      (fs pending : List String) (e : FeatureResolveError)
      → push_requested m fs pending ≡ err e
      → (f : String) × In f fs
        × (declares m f ≡ false)
        × (e ≡ unknown_feature (or_unknown (package_name m)) f)
  unfolding push_requested
  push_requested-err [] pending e h = absurd (ok_not_err h)
  push_requested-err (f ∷ fs) pending e h = elim (Bool-cases (declares m f)) [
    | inl t ↦
        let (g, k, d, q) = push_requested-err fs (pending ++ (f ∷ [])) e (sym (rw t refl) ∙ h) in
        (g, inr k, d, q)
    | inr t ↦ (f, inl refl, t, sym (err_injective (sym (rw t refl) ∙ h)))
  ]

  pub push_if-Adds :
      (test : String → Bool) (name : String) (pending : List String)
      → Adds (λ b. (b ≡ name) × (test b ≡ true)) pending (push_if test name pending)
  push_if-Adds test name pending b = (
    push_if-In test b name pending,
    λ k. elim k [
      | inl l ↦ push_if-keeps test b name pending l
      | inr (q, t) ↦
          subst (λ b. In b (push_if test name pending)) (sym q)
            (push_if-adds test name pending (ap test (sym q) ∙ t))
    ],
  )

  pub push_known-Adds :
      (fs pending : List String)
      → Adds (λ b. In b fs × (declares m b ≡ true)) pending (push_known m fs pending)
  unfolding push_known
  push_known-Adds [] pending = Adds-nothing _ pending (λ b k. k.0)
  push_known-Adds (f ∷ fs) pending =
      Adds-same _ _ pending _
        (λ b. (
          λ k. elim k [ inl (q, t) ↦ (inl q, t) | inr (l, t) ↦ (inr l, t) ],
          λ k. elim k.0 [ inl q ↦ inl (q, k.1) | inr l ↦ inr (l, k.1) ],
        ))
        (Adds-then _ _ pending (push_if (declares m) f pending) _
          (push_if-Adds (declares m) f pending)
          (push_known-Adds fs (push_if (declares m) f pending)))
