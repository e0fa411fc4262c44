-- ===== src/Features/Spec.antt =====
-- crates/rb-feature-resolver/src/resolver.rs: the rules for the features that are on, as its documentation
-- gives them.
use rustacean.Common.{ℕ, String, ◌≡◌, ◌≢◌, true, false, some, List, [], ◌∷◌, ◌++◌}
use rustacean.Common.Bytes.{codes}
use rustacean.Common.Every.{In}
use rustacean.Common.Results.{ok}
use rustacean.Features.{
  DetailedDependency, DependencySpec, WorkspaceSection, detailed, CargoManifest, FeatureSet, Files,
  get, declares, package_name, from_path,
}

-- A spec is the plain name of a feature: no `dep:` in front and no slash.
pub record IsSelf (spec name : String) : Type 0 where
  pub same : spec ≡ name
  pub no_dep : (rest : List ℕ) → codes spec ≢ codes "dep:" ++ rest
  pub no_slash : ¬ (In b'/' (codes spec))

-- The feature `a` has a spec that names the feature `b` of the same crate.
pub record Enables (m : CargoManifest) (a b : String) : Type 0 where
  pub specs : List String
  pub declared : get m.features a ≡ some specs
  pub spec : String
  pub listed : In spec specs
  pub self : IsSelf spec b
  pub known : declares m b ≡ true

-- One of the dependencies is the crate, with the feature.
pub record Asks (m : CargoManifest) (current : String) (deps : List (String × DependencySpec))
    (f : String) : Type 0 where
  pub detail : DetailedDependency
  pub depends : In (current, detailed detail) deps
  pub asked : In f detail.features
  pub known : declares m f ≡ true

-- A directory holds a readable manifest of another crate, which asks for the feature among its plain
-- dependencies.
pub record MemberAsks (files : Files) (m : CargoManifest) (current : String) (dir : List String)
    (f : String) : Type 0 where
  pub is_dir : files.is_dir dir ≡ true
  pub exists : files.exists (dir ++ ("Cargo.toml" ∷ [])) ≡ true
  pub member : CargoManifest
  pub parsed : from_path files (dir ++ ("Cargo.toml" ∷ [])) ≡ ok member
  pub other : package_name member ≢ some current
  pub asks : Asks m current member.dependencies f

-- The workspace lists such a directory; a glob is taken as it stands.
pub record Unified (files : Files) (root : List String) (m : CargoManifest) (f : String)
    : Type 0 where
  pub ws : CargoManifest
  pub exists : files.exists (root ++ ("Cargo.toml" ∷ [])) ≡ true
  pub parsed : from_path files (root ++ ("Cargo.toml" ∷ [])) ≡ ok ws
  pub workspace : WorkspaceSection
  pub has_workspace : ws.workspace ≡ some workspace
  pub current : String
  pub named : package_name m ≡ some current
  pub member_glob : String
  pub is_member : In member_glob workspace.members
  pub asks : MemberAsks files m current (root ++ (member_glob ∷ [])) f

-- A feature is on if the request names it, if it is the default one and defaults are used, if another
-- member wants it, or if a feature that is on enables it.
pub data On (files : Files) (root : List String) (m : CargoManifest) (r : FeatureSet)
    : String → Type 0 where
  requested : {f : String} → In f r.features → On files root m r f
  by_default :
      r.no_default_features ≡ false → declares m "default" ≡ true → On files root m r "default"
  unified : {f : String} → Unified files root m f → On files root m r f
  enabled : {a b : String} → On files root m r a → Enables m a b → On files root m r b
