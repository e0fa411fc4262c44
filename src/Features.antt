-- ===== src/Features.antt =====
-- crates/rb-feature-resolver/src: which features of a crate are on (resolver.rs, manifest.rs, types.rs,
-- error.rs). A `BTreeSet` is a list that is asked for members, a `BTreeMap` the list of its entries in
-- the order of the keys, and a `Path` the list of the strings that were joined.
pub mod Spec
pub mod SelfSpecs
pub mod Queue
pub mod Requests
pub mod Members
pub mod Seeds
pub mod Expand
pub mod Total
pub mod Resolve
use rustacean.Common.{
  ℕ, zero, suc, String, Bool, true, false, not, ◌&&◌, ◌||◌, Option, none, some, List, [], ◌∷◌, ◌++◌,
  any, if◌then◌else◌,
}
use rustacean.Common.Bytes.{codes, strip_prefix, has_byte}
use rustacean.Common.Results.{Result, ok, err, ◌>>=◌, map_err}
use rustacean.Common.Names.{contains}
use text.Mathlib.Text.{◌==◌}

pub record PackageMetadata : Type 0 where
  pub name : String
  pub version : Option String

pub record WorkspaceSection : Type 0 where
  pub members : List String

pub record DetailedDependency : Type 0 where
  pub version : Option String
  pub path : Option String
  pub features : List String
  pub default_features : Bool
  pub optional : Bool

pub data DependencySpec : Type 0 where
  simple : String → DependencySpec
  detailed : DetailedDependency → DependencySpec

pub record CargoManifest : Type 0 where
  pub package_metadata : Option PackageMetadata
  pub features : List (String × List String)
  pub dependencies : List (String × DependencySpec)
  pub dev_dependencies : List (String × DependencySpec)
  pub build_dependencies : List (String × DependencySpec)
  pub workspace : Option WorkspaceSection

pub record FeatureSet : Type 0 where
  pub features : List String
  pub no_default_features : Bool

-- The sources of the first two are numbered.
pub data FeatureResolveError : Type 0 where
  manifest_read : List String → ℕ → FeatureResolveError
  manifest_parse : List String → ℕ → FeatureResolveError
  unknown_feature : String → String → FeatureResolveError
  cyclic_dependency : String → FeatureResolveError

-- The file system at the time of the call, and `toml::from_str`.
pub record Files : Type 0 where
  pub exists : List String → Bool
  pub is_dir : List String → Bool
  pub read_to_string : List String → Result String ℕ
  pub from_str : String → Result CargoManifest ℕ

-- `BTreeMap::get`
abbrev pub get : {A : Type 0} → List (String × A) → String → Option A
get [] key = none
get ((k, v) ∷ entries) key = let rest = get entries key in if key == k then some v else rest

abbrev pub is_some : {A : Type 0} → Option A → Bool
is_some none = false
is_some (some a) = true

-- `contains_key` of a manifest's features
abbrev pub declares : CargoManifest → String → Bool
declares m name = is_some (get m.features name)

abbrev name_of : Option PackageMetadata → Option String
name_of none = none
name_of (some p) = some p.name

abbrev pub package_name : CargoManifest → Option String
package_name m = name_of m.package_metadata

-- `CargoManifest::from_path`
unfoldable pub from_path : Files → List String → Result CargoManifest FeatureResolveError
from_path files path = map_err (manifest_read path) (files.read_to_string path) >>= λ content.
    map_err (manifest_parse path) (files.from_str content)

abbrev pub starts_with_dep : String → Bool
starts_with_dep spec = is_some (strip_prefix (codes "dep:") (codes spec))

abbrev pub has_slash : String → Bool
has_slash spec = has_byte b'/' (codes spec)

unfoldable pub as_self_feature : String → Option String
as_self_feature spec = if starts_with_dep spec || has_slash spec then none else some spec

abbrev pub or_unknown : Option String → String
or_unknown none = "<unknown>"
or_unknown (some name) = name

-- Validation of the request: each feature goes into the queue, the first unknown one is the error.
unfoldable pub push_requested :
    CargoManifest → List String → List String → Result (List String) FeatureResolveError
push_requested m [] pending = ok pending
push_requested m (f ∷ fs) pending =
    let rest = push_requested m fs (pending ++ (f ∷ [])) in
    if declares m f then rest else err (unknown_feature (or_unknown (package_name m)) f)

-- `push_back` of a feature that passes a test.
abbrev push_if : (String → Bool) → String → List String → List String
push_if test name pending = if test name then pending ++ (name ∷ []) else pending

abbrev push_spec : (String → Bool) → Option String → List String → List String
push_spec test none pending = pending
push_spec test (some name) pending = push_if test name pending

-- The two loops over the specs of a feature.
unfoldable pub push_specs : (String → Bool) → List String → List String → List String
unfolding as_self_feature
push_specs test [] pending = pending
push_specs test (spec ∷ specs) pending =
    push_specs test specs (push_spec test (as_self_feature spec) pending)

abbrev seed_from : CargoManifest → Option (List String) → List String → List String
seed_from m none pending = pending
seed_from m (some specs) pending = push_specs (declares m) specs (pending ++ ("default" ∷ []))

abbrev uses_default_features : FeatureSet → Bool
uses_default_features requested = not requested.no_default_features

unfoldable pub seed_defaults : CargoManifest → FeatureSet → List String → List String
unfolding push_specs
seed_defaults m requested pending =
    if uses_default_features requested
    then seed_from m (get m.features "default") pending
    else pending

-- The features that a member asks of the crate.
unfoldable pub push_known : CargoManifest → List String → List String → List String
push_known m [] pending = pending
push_known m (f ∷ fs) pending = push_known m fs (push_if (declares m) f pending)

abbrev push_detail : CargoManifest → DependencySpec → List String → List String
push_detail m (simple version) pending = pending
push_detail m (detailed detail) pending = push_known m detail.features pending

unfoldable pub push_dependencies :
    CargoManifest → String → List (String × DependencySpec) → List String → List String
unfolding push_known
push_dependencies m current [] pending = pending
push_dependencies m current ((name, spec) ∷ deps) pending =
    push_dependencies m current deps
      (if name == current then push_detail m spec pending else pending)

-- `member.package_name() == Some(current_name)`
abbrev pub is_named : String → Option String → Bool
is_named current none = false
is_named current (some name) = name == current

-- A member that cannot be parsed is skipped, and so is the crate itself.
abbrev push_parsed :
    CargoManifest → String → Result CargoManifest FeatureResolveError → List String → List String
push_parsed m current (err e) pending = pending
push_parsed m current (ok member) pending =
    if is_named current (package_name member)
    then pending
    else push_dependencies m current member.dependencies pending

unfoldable pub push_member :
    Files → List String → CargoManifest → String → String → List String → List String
unfolding push_dependencies
push_member files root m current member_glob pending =
    let member_dir = root ++ (member_glob ∷ []) in
    let path = member_dir ++ ("Cargo.toml" ∷ []) in
    if not (files.is_dir member_dir)
    then pending
    else if not (files.exists path)
    then pending
    else push_parsed m current (from_path files path) pending

unfoldable pub push_members :
    Files → List String → CargoManifest → String → List String → List String → List String
push_members files root m current [] pending = pending
push_members files root m current (member_glob ∷ members) pending =
    push_members files root m current members (push_member files root m current member_glob pending)

abbrev push_workspace :
    Files
    → List String
    → CargoManifest
    → Option WorkspaceSection
    → Option String
    → List String
    → List String
push_workspace files root m none current pending = pending
push_workspace files root m (some workspace) none pending = pending
push_workspace files root m (some workspace) (some current) pending =
    push_members files root m current workspace.members pending

unfoldable pub collect_workspace_unified :
    Files → List String → CargoManifest → List String → Result (List String) FeatureResolveError
collect_workspace_unified files root m pending =
    let path = root ++ ("Cargo.toml" ∷ []) in
    if not (files.exists path)
    then ok pending
    else from_path files path >>= λ ws.
        ok (push_workspace files root m ws.workspace (package_name m) pending)

abbrev or_none : Option (List String) → List String
or_none none = []
or_none (some specs) = specs

-- What a feature puts into the queue when it is resolved.
unfoldable pub enqueue : CargoManifest → List String → String → List String → List String
unfolding push_specs
enqueue m resolved feature pending =
    push_specs (λ name. declares m name && not (contains resolved name))
      (or_none (get m.features feature)) pending

-- `MAX_ITERATIONS`
abbrev pub max_iterations : ℕ
max_iterations = 4096

-- The loop, where `left` is `MAX_ITERATIONS - iterations`.
unfoldable pub expand :
    CargoManifest → ℕ → List String → List String → Result (List String) FeatureResolveError
expand m left resolved [] = ok resolved
expand m zero resolved (feature ∷ pending) = elim (contains resolved feature) [
  | true ↦ expand m zero resolved pending
  | false ↦ err (cyclic_dependency feature)
]
expand m (suc left) resolved (feature ∷ pending) = elim (contains resolved feature) [
  | true ↦ expand m (suc left) resolved pending
  | false ↦ expand m left (feature ∷ resolved) (enqueue m (feature ∷ resolved) feature pending)
]

unfoldable pub resolve :
    Files → List String → CargoManifest → FeatureSet → Result (List String) FeatureResolveError
resolve files root m requested = push_requested m requested.features [] >>= λ pending.
    collect_workspace_unified files root m (seed_defaults m requested pending) >>= λ all.
    expand m max_iterations [] all
