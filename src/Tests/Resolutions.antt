-- ===== src/Tests/Resolutions.antt =====
-- crates/rb-feature-resolver/src/resolver.rs: a crate of a workspace whose features enable each other,
-- in a workspace in which another crate asks for one more.
use rustacean.Common.{
  ℕ, String, ◌≡◌, refl, ◌↔◌, ◌⊎◌, inl, inr, true, false, Option, none, some, List, [], ◌∷◌, arith,
  ap, if◌then◌else◌,
}
use rustacean.Common.Every.{In}
use rustacean.Common.Results.{Result, ok, err}
use rustacean.Features.{
  simple, detailed, CargoManifest, FeatureSet, Files, declares, package_name, or_unknown,
  unknown_feature, from_path, as_self_feature, push_requested, push_specs, push_known,
  push_dependencies, push_member, push_members, collect_workspace_unified, seed_defaults, enqueue,
  expand, resolve,
}
use rustacean.Features.Spec.{On}
use rustacean.Features.Resolve.{resolve-On, resolve_total, resolve-err}
use text.Mathlib.Text.{◌==◌}

abbrev features : List (String × List String)
features =
    ("default", "a" ∷ "dep:serde" ∷ [])
    ∷ ("a", "b" ∷ "serde/std" ∷ [])
    ∷ ("b", "a" ∷ [])
    ∷ ("c", [])
    ∷ ("d", [])
    ∷ []

abbrev crate : CargoManifest
crate = record {
  package_metadata = some (record { name = "crate"; version = none });
  features = features;
  dependencies = [];
  dev_dependencies = [];
  build_dependencies = [];
  workspace = none;
}

abbrev sibling : CargoManifest
sibling = record {
  package_metadata = some (record { name = "sibling"; version = none });
  features = [];
  dependencies =
      (
        "crate",
        detailed (record {
          version = none;
          path = some "../crate";
          features = "c" ∷ "e" ∷ [];
          default_features = true;
          optional = false;
        }),
      )
      ∷ ("serde", simple "1")
      ∷ [];
  dev_dependencies = [];
  build_dependencies = [];
  workspace = none;
}

abbrev ws : CargoManifest
ws = record {
  package_metadata = none;
  features = [];
  dependencies = [];
  dev_dependencies = [];
  build_dependencies = [];
  workspace = some (record { members = "crate" ∷ "sibling" ∷ "tools" ∷ [] });
}

-- The content of a manifest is the name of its directory.
abbrev directory : List String → Option String
directory [] = none
directory (dir ∷ []) = none
directory (dir ∷ file ∷ []) = some dir
directory (dir ∷ next ∷ file ∷ rest) = some next

abbrev content : Option String → Result String ℕ
content none = err 2
content (some dir) = ok dir

abbrev parse : String → Result CargoManifest ℕ
parse dir =
    if dir == "ws"
    then ok ws
    else if dir == "crate"
    then ok crate
    else if dir == "sibling"
    then ok sibling
    else err 1

abbrev files : Files
files = record {
  exists = λ path. true;
  is_dir = λ path. true;
  read_to_string = λ path. content (directory path);
  from_str = parse;
}

abbrev root : List String
root = "ws" ∷ []

-- The default features.
abbrev plain : FeatureSet
plain = record { features = []; no_default_features = false }

-- One feature, without the default ones.
abbrev only : String → FeatureSet
only f = record { features = f ∷ []; no_default_features = true }

resolved_now : resolve files root crate plain ≡ ok ("b" ∷ "c" ∷ "a" ∷ "default" ∷ [])
unfolding from_path as_self_feature push_requested push_specs push_known push_dependencies
    push_member push_members collect_workspace_unified seed_defaults enqueue expand resolve
resolved_now = refl

unknown_now : resolve files root crate (only "x") ≡ err (unknown_feature "crate" "x")
unfolding push_requested resolve
unknown_now = refl

resolve-On_example :
    In {A = String} "b" ("b" ∷ "c" ∷ "a" ∷ "default" ∷ []) ↔ On files root crate plain "b"
resolve-On_example =
    resolve-On files root crate plain ("b" ∷ "c" ∷ "a" ∷ "default" ∷ []) resolved_now "b"

root_parsed : from_path files ("ws" ∷ "Cargo.toml" ∷ []) ≡ ok ws
unfolding from_path
root_parsed = refl

resolve_total_example : (fs : List String) × (resolve files root crate (only "d") ≡ ok fs)
resolve_total_example =
    resolve_total files root crate (only "d") (ground arith) d_known (inr (ws, root_parsed))
  where
    d_known : (f : String) → In f ("d" ∷ []) → declares crate f ≡ true
    d_known f (inl e) = ap (declares crate) e
    d_known f (inr m) = elim m [ ]

resolve-err_example :
    ((f : String) × In f ("x" ∷ [])
      × (declares crate f ≡ false)
      × (unknown_feature "crate" "x" ≡ unknown_feature (or_unknown (package_name crate)) f))
    ⊎ (from_path files ("ws" ∷ "Cargo.toml" ∷ []) ≡ err (unknown_feature "crate" "x"))
resolve-err_example =
    resolve-err files root crate (only "x") (unknown_feature "crate" "x") (ground arith) unknown_now
