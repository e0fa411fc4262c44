-- ===== src/Tests/Writes.antt =====
-- crates/rb-storage-neo4j/src/write_check.rs: a query with a string and a write clause.
use rustacean.Common.{ℕ, ◌≡◌, refl, Bool, false, some, List, [], ◌∷◌, arith}
use rustacean.Common.Bytes.{codes}
use rustacean.Cypher.WriteCheck.{has_write_operators}
use rustacean.Cypher.WriteCheck.Grammar.{
  double, plain, Token, text, word, other, line, render, OtherIsValid, IsQuery, writes,
}
use rustacean.Cypher.WriteCheck.Tokens.{has_write_operators-render}
use rustacean.Cypher.WriteCheck.Returns.{has_write_operators-returns}

-- RETURN "set" //drop
abbrev reading : List Token
reading =
    word (codes "RETURN")
    ∷ other b' '
    ∷ text double (plain b's' ∷ plain b'e' ∷ plain b't' ∷ [])
    ∷ line (codes "delete")
    ∷ []

blank : (rest : List ℕ) → OtherIsValid b' ' rest
blank rest = record {
  not_single = refl;
  not_double = refl;
  not_tick = refl;
  not_word = refl;
  not_line = λ e. absurd (omega arith);
  not_block = λ e. absurd (omega arith);
}

reading-IsQuery : IsQuery reading
reading-IsQuery = (
  refl,
  refl,
  refl,
  (
    blank _,
    (
      ((refl, refl), ((refl, refl), ((refl, refl), tt))),
      ((refl, (refl, (refl, (refl, (refl, (refl, tt)))))), tt),
    ),
  ),
)

has_write_operators-render_example : has_write_operators (render reading) ≡ some (writes reading)
has_write_operators-render_example = has_write_operators-render reading reading-IsQuery

reading_is_no_write : writes reading ≡ false
reading_is_no_write = refl

has_write_operators-returns_example :
    (r : Bool) × (has_write_operators (codes "merge (n)") ≡ some r)
has_write_operators-returns_example = has_write_operators-returns (codes "merge (n)")
