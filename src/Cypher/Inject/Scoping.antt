-- ===== src/Cypher/Inject/Scoping.antt =====
-- crates/rb-storage-neo4j/src/injector.rs: every node pattern of an accepted query is confined to the tenant.
use rustacean.Common.{
  ℕ, ◌≡◌, refl, inl, inr, Bool, true, false, List, [], ◌∷◌, ◌++◌, all, any, arith, if◌then◌else◌,
  Bool-cases,
}
use rustacean.Common.Bytes.{eq_bytes, eq_bytes→eq}
use rustacean.Common.Every.{In}
use rustacean.Cypher.Inject.Node.{take_while}
use rustacean.Cypher.Inject.{multi_statement, Result, ok, err, parens}
use rustacean.Cypher.Inject.Grammar.{
  Item, node, semicolon, render_node, render_before, Clause, after,
}
use rustacean.Cypher.Inject.Words.{scoped_node}

-- The output, item by item: what is copied, and the inside of each node pattern.
pub data Chunk : Type 0 where
  verbatim pattern : List ℕ → Chunk

abbrev pub written : List Chunk → List ℕ
written [] = []
written (verbatim bs ∷ cs) = bs ++ written cs
written (pattern inner ∷ cs) = parens inner ++ written cs

abbrev pub has_semicolon : List Item → Bool
has_semicolon [] = false
has_semicolon (semicolon ∷ items) = true
has_semicolon (i ∷ items) = has_semicolon items

abbrev pub chunk : List ℕ → Clause → Item → Chunk
chunk label k (node ps) = pattern (scoped_node label k (render_node ps))
chunk label k i = verbatim (render_before i [])

abbrev pub chunks : List ℕ → Clause → List Item → List Chunk
chunks label k [] = []
chunks label k (i ∷ items) = chunk label k i ∷ chunks label (after k i) items

abbrev pub outcome : List ℕ → Clause → List Item → Result
outcome label k items =
    if has_semicolon items then err multi_statement else ok (written (chunks label k items))

pub all-take_while : (p : ℕ → Bool) (cs : List ℕ) → all p (take_while p cs) ≡ true
unfolding take_while
all-take_while p [] = refl
all-take_while p (c ∷ cs) = ground (arith, all-take_while p cs)

pub any-eq_bytes-In : (v : List ℕ) (vs : List (List ℕ)) → any (eq_bytes v) vs ≡ true → In v vs
any-eq_bytes-In v [] h = cc
any-eq_bytes-In v (w ∷ vs) h = elim (Bool-cases (eq_bytes v w)) [
  | inl e ↦ inl (eq_bytes→eq v w e)
  | inr e ↦ inr (any-eq_bytes-In v vs (ground arith))
]
