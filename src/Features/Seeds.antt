-- ===== src/Features/Seeds.antt =====
-- crates/rb-feature-resolver/src/resolver.rs: what is in the queue before the expansion.
use rustacean.Common.{
  String, ◌≡◌, refl, sym, ap, ◌∙◌, subst, ◌↔◌, ◌⊎◌, inl, inr, Bool, true, false, not, Option, none,
  some, List, [], ◌∷◌, ◌++◌, if◌then◌else◌, true_not_false,
}
use rustacean.Common.Every.{In}
use rustacean.Common.Results.{Result, ok, err, ◌>>=◌, ok_injective, ok_not_err, err_injective}
use rustacean.Features.{
  CargoManifest, WorkspaceSection, FeatureSet, FeatureResolveError, Files, get, declares,
  package_name, from_path, collect_workspace_unified, push_workspace, seed_defaults, seed_from,
  is_some,
}
use rustacean.Features.Spec.{Enables, MemberAsks, Unified}
use rustacean.Features.Queue.{
  Adds, Adds-nothing, Adds-same, Adds-then, push_back-Adds, Named, push_specs_iff,
}
use rustacean.Features.Members.{push_members-Adds}

module _ (files : Files) (root : List String) (m : CargoManifest) where
  push_workspace-Adds :
      (workspace : Option WorkspaceSection) (name : Option String) (pending : List String)
      → Adds
          (λ b.
            (w : WorkspaceSection) × (workspace ≡ some w)
            × ((current : String) × (name ≡ some current)
                × ((g : String) × In g w.members
                    × MemberAsks files m current (root ++ (g ∷ [])) b)))
          pending
          (push_workspace files root m workspace name pending)
  push_workspace-Adds none name pending = Adds-nothing _ pending (λ b k. no k.1)
    where
      no : {w : WorkspaceSection} → none ≡ some w → ⊥
      no q = cc
  push_workspace-Adds (some w) none pending = Adds-nothing _ pending (λ b k. no k.2.1)
    where
      no : {s : String} → none ≡ some s → ⊥
      no q = cc
  push_workspace-Adds (some w) (some current) pending =
      Adds-same _ _ pending _
        (λ b. (
          λ k. (w, refl, (current, refl, k)),
          λ k.
              let (w', p, (c, q, (g, l, a))) = k in
              (
                g,
                subst (λ (w : WorkspaceSection). In g w.members) (sym (same p)) l,
                subst (λ c. MemberAsks files m c (root ++ (g ∷ [])) b) (sym (same q)) a,
              ),
        ))
        (push_members-Adds files m current root w.members pending)
    where
      same : {A : Type 0} {x y : A} → some x ≡ some y → x ≡ y
      same q = cc

  -- A manifest of the workspace, if there is one, can be read.
  abbrev pub Readable : Type 0
  Readable =
      (files.exists (root ++ ("Cargo.toml" ∷ [])) ≡ false)
      ⊎ ((ws : CargoManifest) × (from_path files (root ++ ("Cargo.toml" ∷ [])) ≡ ok ws))

  pub collect-Adds :
      (pending after : List String)
      → collect_workspace_unified files root m pending ≡ ok after
      → Adds (Unified files root m) pending after
  unfolding collect_workspace_unified
  collect-Adds pending after h = go (files.exists path) refl (from_path files path) refl h
    where
      path : List String
      path = root ++ ("Cargo.toml" ∷ [])

      go :
          (x : Bool)
          → files.exists path ≡ x
          → (result : Result CargoManifest FeatureResolveError) → from_path files path ≡ result
          → (if not x
              then ok pending
              else result >>= λ ws.
                  ok (push_workspace files root m ws.workspace (package_name m) pending))
            ≡ ok after
          → Adds (Unified files root m) pending after
      go false p result q h =
          subst (Adds _ pending) (ok_injective h)
            (Adds-nothing _ pending (λ b (u : Unified files root m b). true_not_false u.exists p))
      go true p (err e) q h = absurd (ok_not_err (sym h))
      go true p (ok ws) q h =
          subst (Adds _ pending) (ok_injective h) (
            Adds-same _ _ pending _ same
              (push_workspace-Adds ws.workspace (package_name m) pending))
        where
          same :
              (b : String)
              → ((w : WorkspaceSection) × (ws.workspace ≡ some w)
                  × ((current : String) × (package_name m ≡ some current)
                      × ((g : String) × In g w.members
                          × MemberAsks files m current (root ++ (g ∷ [])) b)))
                ↔ Unified files root m b
          same b = (
            λ k.
                let (w, e, (c, n, (g, l, a))) = k in
                record {
                  ws = ws;
                  exists = p;
                  parsed = q;
                  workspace = w;
                  has_workspace = e;
                  current = c;
                  named = n;
                  member_glob = g;
                  is_member = l;
                  asks = a;
                },
            λ (u : Unified files root m b). (
              u.workspace,
              ap (λ (n : CargoManifest). n.workspace) (ok_injective (sym q ∙ u.parsed))
                  ∙ u.has_workspace,
              (u.current, u.named, (u.member_glob, u.is_member, u.asks)),
            ),
          )

  pub collect_total :
      (pending : List String)
      → Readable
      → (after : List String) × (collect_workspace_unified files root m pending ≡ ok after)
  unfolding collect_workspace_unified
  collect_total pending (inl e) = (pending, rw e refl)
  collect_total pending (inr (ws, e)) = go (files.exists path)
    where
      path : List String
      path = root ++ ("Cargo.toml" ∷ [])

      go :
          (x : Bool)
          → (after : List String) × ((if not x
                then ok pending
                else from_path files path >>= λ ws.
                    ok (push_workspace files root m ws.workspace (package_name m) pending))
              ≡ ok after)
      go false = (pending, refl)
      go true = (push_workspace files root m ws.workspace (package_name m) pending, rw e refl)

  -- The only error is that the workspace's manifest cannot be read.
  pub collect-err :
      (pending : List String) (e : FeatureResolveError)
      → collect_workspace_unified files root m pending ≡ err e
      → from_path files (root ++ ("Cargo.toml" ∷ [])) ≡ err e
  unfolding collect_workspace_unified
  collect-err pending e h = go (files.exists path) (from_path files path) refl h
    where
      path : List String
      path = root ++ ("Cargo.toml" ∷ [])

      go :
          (x : Bool) (result : Result CargoManifest FeatureResolveError)
          → from_path files path ≡ result
          → (if not x
              then ok pending
              else result >>= λ ws.
                  ok (push_workspace files root m ws.workspace (package_name m) pending))
            ≡ err e
          → from_path files path ≡ err e
      go false result q h = absurd (ok_not_err h)
      go true (err d) q h = q ∙ ap err (err_injective h)
      go true (ok ws) q h = absurd (ok_not_err h)

-- What the defaults seed: the default feature, and what it enables.
abbrev pub ByDefault : CargoManifest → FeatureSet → String → Type 0
ByDefault m r b =
    (r.no_default_features ≡ false)
    × (declares m "default" ≡ true)
    × ((b ≡ "default") ⊎ Enables m "default" b)

pub seed_defaults-Adds :
    (m : CargoManifest) (r : FeatureSet) (pending : List String)
    → Adds (ByDefault m r) pending (seed_defaults m r pending)
unfolding seed_defaults
seed_defaults-Adds m r pending = go r.no_default_features refl (get m.features "default") refl
  where
    go :
        (x : Bool)
        → r.no_default_features ≡ x
        → (o : Option (List String)) → get m.features "default" ≡ o
        → Adds (ByDefault m r) pending (if not x then seed_from m o pending else pending)
    go true p o q = Adds-nothing _ pending (λ b (k : ByDefault m r b). true_not_false p k.0)
    go false p none q =
        Adds-nothing _ pending (λ b (k : ByDefault m r b). true_not_false k.1 (ap is_some q))
    go false p (some specs) q = Adds-same _ _ pending _ same (
        Adds-then _ _ pending (pending ++ ("default" ∷ [])) _ (push_back-Adds "default" pending)
          (λ b. push_specs_iff (declares m) b specs (pending ++ ("default" ∷ []))))
      where
        same : (b : String) → ((b ≡ "default") ⊎ Named (declares m) specs b) ↔ ByDefault m r b
        same b = (
          λ k. (
            p,
            ap is_some q,
            elim k [
              | inl e ↦ inl e
              | inr n ↦ inr (record {
                specs = specs;
                declared = q;
                spec = n.spec;
                listed = n.listed;
                self = n.self;
                known = n.passes;
              })
            ],
          ),
          λ (k : ByDefault m r b). elim k.2 [
            | inl e ↦ inl e
            | inr e ↦ inr (record {
              spec = e.spec;
              listed = subst (In e.spec) (same_specs (sym e.declared ∙ q)) e.listed;
              self = e.self;
              passes = e.known;
            })
          ],
        )
          where
            same_specs : {xs ys : List String} → some xs ≡ some ys → xs ≡ ys
            same_specs e = cc
