-- ===== src/Features/Members.antt =====
-- crates/rb-feature-resolver/src/resolver.rs: the features that one member of the workspace asks for.
use rustacean.Common.{
  String, ◌≡◌, ◌≢◌, refl, sym, ap, subst, ◌↔◌, ◌⊎◌, inl, inr, Bool, true, false, not, Option, none,
  some, List, [], ◌∷◌, ◌++◌, if◌then◌else◌, Bool-cases, true_not_false,
}
use rustacean.Common.Every.{In}
use rustacean.Common.Results.{Result, ok, err, ok_injective, ok_not_err}
use rustacean.Features.{
  CargoManifest, DetailedDependency, DependencySpec, simple, detailed, FeatureResolveError, Files,
  declares, package_name, from_path, push_known, push_dependencies, push_detail, push_member,
  push_parsed, push_members, is_named,
}
use rustacean.Features.Spec.{Asks, MemberAsks}
use text.Mathlib.Text.{◌==◌}
use text.Mathlib.TextEquality.{eq_iff}
use rustacean.Features.Queue.{Adds, Adds-nothing, Adds-same, Adds-then}
use rustacean.Features.Requests.{push_known-Adds}

module _ (m : CargoManifest) where
  push_detail-Adds :
      (spec : DependencySpec) (pending : List String)
      → Adds
          (λ b.
            (d : DetailedDependency) × (spec ≡ detailed d)
            × In b d.features
            × (declares m b ≡ true))
          pending
          (push_detail m spec pending)
  unfolding push_known
  push_detail-Adds (simple v) pending = Adds-nothing _ pending (λ b k. no k.1)
    where
      no : {d : DetailedDependency} → simple v ≡ detailed d → ⊥
      no q = cc
  push_detail-Adds (detailed d) pending =
      Adds-same _ _ pending _
        (λ b. (
          λ k. (d, refl, k.0, k.1),
          λ k.
              let (d', q, l, t) = k in
              (subst (λ (d : DetailedDependency). In b d.features) (sym (same q)) l, t),
        ))
        (push_known-Adds m d.features pending)
    where
      same : {d' : DetailedDependency} → detailed d ≡ detailed d' → d ≡ d'
      same q = cc

  push_dependencies-Adds :
      (current : String) (deps : List (String × DependencySpec)) (pending : List String)
      → Adds (Asks m current deps) pending (push_dependencies m current deps pending)
  unfolding push_dependencies
  push_dependencies-Adds current [] pending = Adds-nothing _ pending (λ b k. elim k.depends [ ])
  push_dependencies-Adds current ((name, spec) ∷ deps) pending = Adds-same _ _ pending _ same (
      Adds-then _ _ pending (if name == current then push_detail m spec pending else pending) _
        first
        (push_dependencies-Adds current deps
          (if name == current then push_detail m spec pending else pending)))
    where
      First : String → Type 0
      First b =
          ((name == current) ≡ true)
          × ((d : DetailedDependency) × (spec ≡ detailed d)
              × In b d.features
              × (declares m b ≡ true))

      first : Adds First pending (if name == current then push_detail m spec pending else pending)
      first = go (name == current) refl
        where
          go :
              (x : Bool)
              → (name == current) ≡ x
              → Adds First pending (if x then push_detail m spec pending else pending)
          go true e =
              Adds-same _ _ pending _ (λ b. (λ k. (e, k), λ k. k.1)) (push_detail-Adds spec pending)
          go false e = Adds-nothing First pending (λ b k. true_not_false k.0 e)

      pair :
          {a a' : String} {s s' : DependencySpec}
          → a ≡ a'
          → s ≡ s'
          → ◌≡◌ {A = String × DependencySpec} (a, s) (a', s')
      pair p q = cc

      unpair :
          {a a' : String} {s s' : DependencySpec}
          → ◌≡◌ {A = String × DependencySpec} (a, s) (a', s')
          → (a ≡ a') × (s ≡ s')
      unpair e = (ap (λ p. p.0) e, ap (λ p. p.1) e)

      same :
          (b : String) → (First b ⊎ Asks m current deps b) ↔ Asks m current ((name, spec) ∷ deps) b
      same b = (
        λ k. elim k [
          | inl (e, (d, q, l, t)) ↦ record {
            detail = d;
            depends = inl (pair (sym ((eq_iff name current).0 e)) (sym q));
            asked = l;
            known = t;
          }
          | inr a ↦ record {
            detail = a.detail;
            depends = inr a.depends;
            asked = a.asked;
            known = a.known;
          }
        ],
        λ a. elim a.depends [
          | inl q ↦
              let (n, s) = unpair q in
              inl ((eq_iff name current).1 (sym n), (a.detail, sym s, a.asked, a.known))
          | inr l ↦
              inr (record { detail = a.detail; depends = l; asked = a.asked; known = a.known })
        ],
      )

is_named_iff :
    (current : String) (o : Option String) → (is_named current o ≡ false) ↔ (o ≢ some current)
is_named_iff current none = (λ h. no, λ h. refl)
  where
    no : {s : String} → none ≡ some s → ⊥
    no q = cc
is_named_iff current (some name) =
    (λ h q. true_not_false ((eq_iff name current).1 (same q)) h, λ h. go (name == current) refl h)
  where
    same : some name ≡ some current → name ≡ current
    same q = cc

    go : (x : Bool) → (name == current) ≡ x → (some name ≢ some current) → x ≡ false
    go false e h = refl
    go true e h = absurd (h (ap some ((eq_iff name current).0 e)))

module _ (files : Files) (m : CargoManifest) (current : String) where
  push_parsed-Adds :
      (result : Result CargoManifest FeatureResolveError) (pending : List String)
      → Adds
          (λ b.
            (member : CargoManifest) × (result ≡ ok member)
            × (package_name member ≢ some current)
            × Asks m current member.dependencies b)
          pending
          (push_parsed m current result pending)
  unfolding push_dependencies
  push_parsed-Adds (err e) pending = Adds-nothing _ pending (λ b k. ok_not_err (sym k.1))
  push_parsed-Adds (ok member) pending =
      elim (Bool-cases (is_named current (package_name member))) [
        | inl e ↦ rw e (
            Adds-nothing _ pending (λ b k.
              let (n, q, o, a) = k in
              true_not_false e (
                (is_named_iff current (package_name member)).1 (
                  subst (λ (n : CargoManifest). package_name n ≢ some current)
                    (sym (ok_injective q)) o))))
        | inr e ↦ rw e (
            Adds-same _ _ pending _
              (λ b. (
                λ a. (member, refl, (is_named_iff current (package_name member)).0 e, a),
                λ k.
                    let (n, q, o, a) = k in
                    subst (λ (n : CargoManifest). Asks m current n.dependencies b)
                      (sym (ok_injective q)) a,
              ))
              (push_dependencies-Adds m current member.dependencies pending))
      ]

  push_member-Adds :
      (root : List String) (member_glob : String) (pending : List String)
      → Adds
          (MemberAsks files m current (root ++ (member_glob ∷ [])))
          pending
          (push_member files root m current member_glob pending)
  unfolding push_member
  push_member-Adds root member_glob pending =
      go (files.is_dir dir) (files.exists (dir ++ ("Cargo.toml" ∷ []))) refl refl
    where
      dir : List String
      dir = root ++ (member_glob ∷ [])

      go :
          (d x : Bool)
          → files.is_dir dir ≡ d
          → files.exists (dir ++ ("Cargo.toml" ∷ [])) ≡ x
          → Adds (MemberAsks files m current dir) pending (
              if not d
              then pending
              else if not x
              then pending
              else push_parsed m current (from_path files (dir ++ ("Cargo.toml" ∷ []))) pending)
      go false x p q = Adds-nothing _ pending (λ b k. true_not_false k.is_dir p)
      go true false p q = Adds-nothing _ pending (λ b k. true_not_false k.exists q)
      go true true p q =
          Adds-same _ _ pending _
            (λ b. (
              λ k.
                  let (member, e, o, a) = k in
                  record {
                    is_dir = p;
                    exists = q;
                    member = member;
                    parsed = e;
                    other = o;
                    asks = a;
                  },
              λ k. (k.member, k.parsed, k.other, k.asks),
            ))
            (push_parsed-Adds (from_path files (dir ++ ("Cargo.toml" ∷ []))) pending)

  pub push_members-Adds :
      (root members pending : List String)
      → Adds
          (λ b. (g : String) × In g members × MemberAsks files m current (root ++ (g ∷ [])) b)
          pending
          (push_members files root m current members pending)
  unfolding push_members
  push_members-Adds root [] pending = Adds-nothing _ pending (λ b k. elim k.1 [ ])
  push_members-Adds root (g ∷ members) pending =
      Adds-same _ _ pending _
        (λ b. (
          λ k. elim k [ inl a ↦ (g, inl refl, a) | inr (h, l, a) ↦ (h, inr l, a) ],
          λ k.
              let (h, l, a) = k in
              elim l [
                | inl q ↦ inl (subst (λ h. MemberAsks files m current (root ++ (h ∷ [])) b) q a)
                | inr l ↦ inr (h, l, a)
              ],
        ))
        (Adds-then _ _ pending (push_member files root m current g pending) _
          (push_member-Adds root g pending)
          (push_members-Adds root members (push_member files root m current g pending)))
