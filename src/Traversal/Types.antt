-- ===== src/Traversal/Types.antt =====
-- crates/rb-query/src/graph/traversal/types.rs, the rows of the graph database, and the `Result` of a
-- query. A fully qualified name is a `String`; sets and maps over names are lists.
use rustacean.Common.{ℕ, String, Option, none, some, List, [], ◌∷◌, if◌then◌else◌}
use text.Mathlib.Text.{◌==◌}

pub data EdgeProvenance : Type 0 where
  direct monomorph dyn_candidate : EdgeProvenance

-- `line` is an `i64` that is only passed on: its bit pattern.
pub record TraversalNode : Type 0 where
  pub fqn : String
  pub name : Option String
  pub kind : Option String
  pub file_path : Option String
  pub line : Option ℕ

pub record TraversalEdge : Type 0 where
  pub from_fqn : String
  pub to_fqn : String
  pub depth : ℕ
  pub provenance : EdgeProvenance

pub record RawEdge : Type 0 where
  pub from_fqn : String
  pub to_fqn : String
  pub depth : ℕ
  pub provenance : EdgeProvenance
  pub from_node : TraversalNode

pub record TraversalOptions : Type 0 where
  pub depth : ℕ
  pub limit : ℕ
  pub offset : ℕ

-- One row of a query: each column is what `row.get(..).ok()` gives.
pub record Row : Type 0 where
  pub fqn : Option String
  pub name : Option String
  pub kind : Option String
  pub file_path : Option String
  pub line : Option ℕ
  pub dispatch : Option String

-- `Result<A, QueryError>`; the database's errors are numbered.
pub data Answer (A : Type 0) : Type 0 where
  ok : A → Answer A
  failed : ℕ → Answer A

infixl 5 ◌>>=◌
abbrev pub ◌>>=◌ : {A B : Type 0} → Answer A → (A → Answer B) → Answer B
ok a >>= f = f a
failed e >>= f = failed e

-- `HashMap::get`
abbrev pub lookup : List (String × TraversalNode) → String → Option TraversalNode
lookup [] a = none
lookup ((k, n) ∷ m) a = let rest = lookup m a in if a == k then some n else rest

-- `entry(a).or_insert(n)`
abbrev pub or_insert :
    List (String × TraversalNode) → String → TraversalNode → List (String × TraversalNode)
or_insert m a n = elim (lookup m a) [ none ↦ (a, n) ∷ m | some _ ↦ m ]

-- A node that nothing but its name is known of.
abbrev pub bare : String → TraversalNode
bare a = record { fqn = a; name = none; kind = none; file_path = none; line = none }

-- `unwrap_or` of a lookup.
abbrev pub or_bare : String → Option TraversalNode → TraversalNode
or_bare fqn none = bare fqn
or_bare fqn (some n) = n
