-- ===== src/Features/Resolve.antt =====
-- crates/rb-feature-resolver/src/resolver.rs: what `resolve` returns.
use rustacean.Common.{
  ◌≤◌, String, ◌≡◌, refl, sym, ap, ◌∙◌, subst, ◌↔◌, ◌⊎◌, inl, inr, true, false, List, [], ◌∷◌, ◌++◌,
  length, arith,
}
use rustacean.Common.Every.{In}
use rustacean.Common.Results.{Result, ok, err, ◌>>=◌, ok_not_err, err_injective}
use rustacean.Features.{
  CargoManifest, FeatureSet, FeatureResolveError, Files, declares, package_name, from_path,
  push_requested, or_unknown, collect_workspace_unified, seed_defaults, unknown_feature, expand,
  max_iterations, resolve,
}
use rustacean.Features.Spec.{Unified, On, requested, by_default, unified, enabled}
use rustacean.Features.Queue.{Adds}
use rustacean.Features.Requests.{push_requested-Adds, push_requested_total, push_requested-err}
use rustacean.Features.Seeds.{
  Readable, collect-Adds, collect_total, collect-err, ByDefault, seed_defaults-Adds,
}
use rustacean.Features.Expand.{Closed, expand-Closed, expand-follows}
use rustacean.Features.Total.{missing_bound, expand_total}

>>=_ok :
    {A B E : Type 0} (x : Result A E) (f : A → Result B E) (b : B)
    → x >>= f ≡ ok b
    → (a : A) × (x ≡ ok a) × (f a ≡ ok b)
>>=_ok (ok a) f b h = (a, refl, h)
>>=_ok (err e) f b h = absurd (ok_not_err (sym h))

>>=_err :
    {A B E : Type 0} (x : Result A E) (f : A → Result B E) (e : E)
    → x >>= f ≡ err e
    → (x ≡ err e) ⊎ ((a : A) × (x ≡ ok a) × (f a ≡ err e))
>>=_err (ok a) f e h = inr (a, refl, h)
>>=_err (err d) f e h = inl (ap err (err_injective h))

module _ (files : Files) (root : List String) (m : CargoManifest) (r : FeatureSet) where
  -- The queue before the expansion, and what the stages before it say.
  record Seeded (all : List String) : Type 0 where
    first : List String
    requests : Adds (λ b. In b r.features) [] first
    declared : (b : String) → In b r.features → declares m b ≡ true
    defaults : Adds (ByDefault m r) first (seed_defaults m r first)
    members : Adds (Unified files root m) (seed_defaults m r first) all

  Seeded-On : (all : List String) → Seeded all → (b : String) → In b all → On files root m r b
  Seeded-On all s b k = elim ((s.members b).0 k) [
    | inr u ↦ unified u
    | inl l ↦ elim ((s.defaults b).0 l) [
      | inl l ↦ elim ((s.requests b).0 l) [ inl l ↦ elim l [ ] | inr q ↦ requested q ]
      | inr (used, d, e) ↦ elim e [
        | inl q ↦ subst (On files root m r) (sym q) (by_default used d)
        | inr e ↦ enabled (by_default used d) e
      ]
    ]
  ]

  Seeded-declared : (all : List String) → Seeded all → (b : String) → In b all → declares m b ≡ true
  Seeded-declared all s b k = elim ((s.members b).0 k) [
    | inr u ↦ u.asks.asks.known
    | inl l ↦ elim ((s.defaults b).0 l) [
      | inl l ↦ elim ((s.requests b).0 l) [ inl l ↦ elim l [ ] | inr q ↦ s.declared b q ]
      | inr (used, d, e) ↦ elim e [ inl q ↦ ap (declares m) q ∙ d | inr e ↦ e.known ]
    ]
  ]

  On-result :
      (all fs : List String)
      → Seeded all
      → Closed m [] all fs
      → (f : String) → On files root m r f
      → In f fs
  On-result all fs s c f (requested q) =
      c.takes f ((s.members f).1 (inl ((s.defaults f).1 (inl ((s.requests f).1 (inr q))))))
  On-result all fs s c f (by_default used d) =
      c.takes "default"
        ((s.members "default").1 (inl ((s.defaults "default").1 (inr (used, d, inl refl)))))
  On-result all fs s c f (unified u) = c.takes f ((s.members f).1 (inr u))
  On-result all fs s c f (enabled {a} {b} o e) = c.follows a b (On-result all fs s c a o) e

  seeded :
      (first all : List String)
      → push_requested m r.features [] ≡ ok first
      → collect_workspace_unified files root m (seed_defaults m r first) ≡ ok all
      → Seeded all
  seeded first all p q =
      let (requests, declared) = push_requested-Adds m r.features [] first p in
      record {
        first = first;
        requests = requests;
        declared = declared;
        defaults = seed_defaults-Adds m r first;
        members = collect-Adds files root m (seed_defaults m r first) all q;
      }

  -- Whatever `resolve` returns holds exactly the features that are on by the documented steps: those of
  -- the request; `default`, if it is declared and not declined; those that another crate asks for,
  -- whose directory is an entry of the workspace's members as it stands, whose manifest can be read,
  -- and which has the crate among its plain dependencies; and what a feature that is on enables.
  pub resolve-On :
      (fs : List String)
      → resolve files root m r ≡ ok fs
      → (f : String) → In f fs ↔ On files root m r f
  unfolding resolve
  resolve-On fs h f =
      let (first, p, h) = >>=_ok (push_requested m r.features []) _ fs h in
      let (all, q, h) =
        >>=_ok (collect_workspace_unified files root m (seed_defaults m r first)) _ fs h in
      let s = seeded first all p q in
      (
        expand-follows m (On files root m r) max_iterations [] all fs (λ a b o e. enabled o e)
            (λ a k. elim k [ ]) (Seeded-On all s) h f,
        On-result all fs s (expand-Closed m max_iterations [] all fs (λ a b k. elim k [ ]) h) f,
      )

  expand-Seeded :
      (all : List String)
      → Seeded all
      → length m.features ≤ max_iterations
      → (fs : List String) × (expand m max_iterations [] all ≡ ok fs)
  expand-Seeded all s small =
      let bound = missing_bound m m.features [] in
      expand_total m max_iterations [] all (Seeded-declared all s) (omega arith)

  -- A request for declared features of a manifest with at most 4096 of them, cycles or not, is
  -- resolved, if the workspace's manifest can be read or does not exist; the members' manifests need
  -- not be readable.
  pub resolve_total :
      length m.features ≤ max_iterations
      → ((f : String) → In f r.features → declares m f ≡ true)
      → Readable files root m
      → (fs : List String) × (resolve files root m r ≡ ok fs)
  unfolding resolve
  resolve_total small known readable =
      let (first, p) = push_requested_total m r.features [] known in
      let (all, q) = collect_total files root m (seed_defaults m r first) readable in
      let (fs, e) = expand-Seeded all (seeded first all p q) small in (fs, rw (p, q) e)

  -- With at most 4096 features, the only errors are that of a requested feature that the manifest does
  -- not declare, and that of reading or parsing the workspace's own manifest.
  pub resolve-err :
      (e : FeatureResolveError)
      → length m.features ≤ max_iterations
      → resolve files root m r ≡ err e
      → ((f : String) × In f r.features
          × (declares m f ≡ false)
          × (e ≡ unknown_feature (or_unknown (package_name m)) f))
        ⊎ (from_path files (root ++ ("Cargo.toml" ∷ [])) ≡ err e)
  unfolding resolve
  resolve-err e small h = elim (>>=_err (push_requested m r.features []) _ e h) [
    | inl p ↦ inl (push_requested-err m r.features [] e p)
    | inr (first, p, h) ↦
        elim (>>=_err (collect_workspace_unified files root m (seed_defaults m r first)) _ e h) [
          | inl q ↦ inr (collect-err files root m (seed_defaults m r first) e q)
          | inr (all, q, h) ↦
              let (fs, k) = expand-Seeded all (seeded first all p q) small in
              absurd (ok_not_err (sym k ∙ h))
        ]
  ]
