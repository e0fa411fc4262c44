-- ===== src/Cypher/Inject/Isolation.antt =====
-- crates/rb-storage-neo4j/src/injector.rs: the theorems on the queries that are made of lexical items.
use rustacean.Common.{ℕ, ◌≡◌, ◌↔◌, true, some, List}
use rustacean.Cypher.Inject.{multi_statement, err, inject_tenant_label}
use rustacean.Cypher.Inject.Grammar.{Item, render, outside}
use rustacean.Cypher.Inject.Scoping.{has_semicolon}
use rustacean.Cypher.Inject.Scanned.{scanned-semicolon}
use rustacean.Cypher.Inject.Language.{IsQuery}
use rustacean.Cypher.Inject.Reading.{IsQuery-IsScanned}

-- On a query that is written from lexical items the rewriting fails, with the multi-statement error,
-- exactly when one of the items is a semicolon.
pub inject_tenant_label-semicolon :
    (items : List Item) (label : List ℕ)
    → IsQuery outside items
    → (inject_tenant_label (render items) label ≡ some (err multi_statement))
      ↔ (has_semicolon items ≡ true)
inject_tenant_label-semicolon items label v =
    scanned-semicolon items label (IsQuery-IsScanned items outside v)
