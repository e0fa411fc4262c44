-- ===== src/Cypher/Inject/Reading.antt =====
-- crates/rb-storage-neo4j/src/injector.rs: the code's clauses and names are those of the description.
use rustacean.Common.{
  ℕ, ◌≡◌, refl, sym, ap, ◌∙◌, subst, inl, inr, true, false, List, [], ◌∷◌, map, all, any, arith,
  Bool-cases,
}
use rustacean.Common.Bytes.{to_upper, eq_bytes}
use rustacean.Cypher.Inject.Node.{
  take_while, drop_while, is_whitespace, is_var_char, trim_start, var_name, after_var,
  rest_after_var, is_empty,
}
use rustacean.Cypher.Inject.{path_start_kind, is_path_end}
use rustacean.Cypher.Inject.Grammar.{
  Item, text, ticked, line, block, word, edge, node, semicolon, other, render_node, Clause,
  word_clause, refers, node_clause, after, IsScanned,
}
use rustacean.Cypher.Inject.Language.{
  openers, opening, enders, is_blank, is_name_char, name_in_front, behind_name, behind_blanks,
  variable_of, is_bare, behind_word, behind_node, behind, IsQuery,
}

pub is_var_char_lem : (c : ℕ) → is_var_char c ≡ is_name_char c
unfolding is_var_char
is_var_char_lem c = ground arith

pub is_whitespace_lem : (c : ℕ) → is_whitespace c ≡ is_blank c
is_whitespace_lem c = ground arith

take_while-name : (cs : List ℕ) → take_while is_var_char cs ≡ name_in_front cs
unfolding take_while
take_while-name [] = refl
take_while-name (c ∷ cs) = rw (is_var_char_lem, take_while-name cs)

drop_while-name : (cs : List ℕ) → drop_while is_var_char cs ≡ behind_name cs
unfolding drop_while
drop_while-name [] = refl
drop_while-name (c ∷ cs) = rw (is_var_char_lem, drop_while-name cs)

drop_while-blank : (cs : List ℕ) → drop_while is_whitespace cs ≡ behind_blanks cs
unfolding drop_while
drop_while-blank [] = refl
drop_while-blank (c ∷ cs) = rw (is_whitespace_lem, drop_while-blank cs)

pub var_name_lem : (inner : List ℕ) → var_name inner ≡ variable_of inner
var_name_lem inner = take_while-name (trim_start inner) ∙ ap name_in_front (drop_while-blank inner)

pub after_var_lem : (inner : List ℕ) → after_var inner ≡ behind_name (behind_blanks inner)
after_var_lem inner = drop_while-name (trim_start inner) ∙ ap behind_name (drop_while-blank inner)

empty-blanks : (cs : List ℕ) → is_empty (trim_start cs) ≡ all is_blank cs
unfolding drop_while
empty-blanks [] = refl
empty-blanks (c ∷ cs) = elim (Bool-cases (is_blank c)) [
  | inl h ↦ let q : is_whitespace c ≡ true = is_whitespace_lem c ∙ h in rw (h, q, empty-blanks cs)
  | inr h ↦ let q : is_whitespace c ≡ false = is_whitespace_lem c ∙ h in rw (h, q)
]

is_empty_lem : (cs : List ℕ) → is_empty cs ≡ eq_bytes cs []
is_empty_lem [] = refl
is_empty_lem (c ∷ cs) = refl

rest_after_var_lem :
    (inner : List ℕ)
    → is_empty (rest_after_var inner) ≡ all is_blank (behind_name (behind_blanks inner))
rest_after_var_lem inner = empty-blanks (after_var inner) ∙ ap (all is_blank) (after_var_lem inner)

pub refers-is_bare : (k : Clause) (inner : List ℕ) → refers k inner ≡ true → is_bare inner ≡ true
refers-is_bare k inner h =
    rw
      (
        sym (rest_after_var_lem inner),
        sym (var_name_lem inner),
        sym (is_empty_lem (var_name inner)),
      )
      (ground arith)

path_start_kind_lem : (upper : List ℕ) → path_start_kind upper ≡ opening upper openers
unfolding path_start_kind
path_start_kind_lem upper = ground arith

is_path_end_lem : (upper : List ℕ) → is_path_end upper ≡ any (eq_bytes upper) enders
unfolding is_path_end
is_path_end_lem upper = refl

word_clause_lem : (k : Clause) (upper : List ℕ) → word_clause k upper ≡ behind_word k upper
word_clause_lem k upper = ground (arith, path_start_kind_lem upper, is_path_end_lem upper)

node_clause_lem : (k : Clause) (inner : List ℕ) → node_clause k inner ≡ behind_node k inner
node_clause_lem k inner =
    rw (sym (var_name_lem inner), sym (is_empty_lem (var_name inner))) (ground arith)

pub after_lem : (k : Clause) (i : Item) → after k i ≡ behind k i
after_lem k (text q ps) = refl
after_lem k (ticked bs) = refl
after_lem k (line bs) = refl
after_lem k (block bs) = refl
after_lem k (word w) = word_clause_lem k (map to_upper w)
after_lem k (edge ps) = refl
after_lem k (node ps) = node_clause_lem k (render_node ps)
after_lem k semicolon = refl
after_lem k (other b) = refl

pub IsQuery-IsScanned : (items : List Item) (k : Clause) → IsQuery k items → IsScanned k items
IsQuery-IsScanned [] k v = tt
IsQuery-IsScanned (i ∷ items) k v = (
  v.0,
  subst (λ k. IsScanned k items) (sym (after_lem k i)) (IsQuery-IsScanned items (behind k i) v.1),
)
