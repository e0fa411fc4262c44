-- ===== src/Tests/Scopes.antt =====
-- crates/rb-storage-neo4j/src/injector.rs: a query with a node that is bound and one that refers to it.
use rustacean.Common.{ℕ, ◌≡◌, refl, ◌↔◌, true, some, List, [], ◌∷◌, ◌++◌, arith}
use rustacean.Common.Bytes.{codes}
use rustacean.Cypher.Scan.{take_word, drop_word}
use rustacean.Cypher.Inject.Node.{
  collect_node_pattern, splice_label, take_while, drop_while, is_var_char,
}
use rustacean.Cypher.Inject.{
  path_start_kind, word_context, is_bound_ref, Result, ok, err, multi_statement,
  inject_tenant_label,
}
use rustacean.Cypher.Inject.Total.{inject_tenant_label-returns}
use rustacean.Cypher.Inject.Copies.{Inserts}
use rustacean.Cypher.Inject.Insertions.{Ends, encode, inject_tenant_label-Inserts}
use rustacean.Cypher.Inject.Grammar.{
  NodePart, Item, word, node, other, render, Clause, outside, OtherIsValid, NodePartsAreValid,
}
use rustacean.Cypher.Inject.Language.{IsQuery}
use rustacean.Cypher.Inject.Scoping.{has_semicolon}
use rustacean.Cypher.Inject.Isolation.{inject_tenant_label-semicolon}

abbrev label : List ℕ
label = codes "Tenant_1f"

-- MATCH (n) MERGE (n)
abbrev merging : List Item
merging =
    word (codes "MATCH")
    ∷ other b' '
    ∷ node (NodePart.byte b'n' ∷ [])
    ∷ other b' '
    ∷ word (codes "MERGE")
    ∷ other b' '
    ∷ node (NodePart.byte b'n' ∷ [])
    ∷ []

blank : (k : Clause) (rest : List ℕ) → OtherIsValid k b' ' rest
blank k rest = record {
  plain = (refl, (refl, (refl, (refl, (refl, tt)))));
  not_word = refl;
  not_line = λ e. absurd (omega arith);
  not_block = λ e. absurd (omega arith);
  not_node = λ e. absurd (omega arith);
}

merging-IsQuery : IsQuery outside merging
merging-IsQuery = (
  (refl, refl),
  (blank _ _, ((refl, name), (blank _ _, ((refl, refl), (blank _ _, ((refl, name), tt)))))),
)
  where
    name : NodePartsAreValid 0 (NodePart.byte b'n' ∷ [])
    name = ((refl, (refl, (refl, (refl, tt)))), λ e. absurd (omega arith), refl)

inject_tenant_label-semicolon_example :
    (inject_tenant_label (render merging) label ≡ some (err multi_statement))
    ↔ (has_semicolon merging ≡ true)
inject_tenant_label-semicolon_example = inject_tenant_label-semicolon merging label merging-IsQuery

-- MATCH (n)
run_match : inject_tenant_label (codes "MATCH (n)") label ≡ some (ok (codes "MATCH (n:Tenant_1f)"))
unfolding inject_tenant_label drop_word word_context path_start_kind take_word collect_node_pattern
    is_bound_ref splice_label take_while drop_while is_var_char
run_match = refl

inject_tenant_label-Inserts_example :
    (tail : List ℕ) × Ends tail
    × Inserts
        (encode (b':' ∷ label))
        (codes "MATCH (n)" ++ tail)
        (encode (codes "MATCH (n:Tenant_1f)"))
inject_tenant_label-Inserts_example =
    inject_tenant_label-Inserts (codes "MATCH (n)") label (codes "MATCH (n:Tenant_1f)")
      (ground arith) run_match

inject_tenant_label-returns_example :
    (r : Result) × (inject_tenant_label (codes "MATCH (n) [") label ≡ some r)
inject_tenant_label-returns_example = inject_tenant_label-returns (codes "MATCH (n) [") label
