-- ===== src/Cypher/Inject/Language.antt =====
-- crates/rb-storage-neo4j/src/injector.rs: an independent description of the queries: which words begin
-- and end a path clause, what a node pattern declares, and what the tenant's queries may look like
-- behind the rewriting.
use rustacean.Common.{
  ℕ, ◌≡◌, ◌⊎◌, Bool, true, false, not, ◌&&◌, ◌||◌, Option, none, some, List, [], ◌∷◌, ◌++◌, map,
  all, any, leb, ◌==◌, if◌then◌else◌,
}
use rustacean.Common.Bytes.{codes, to_upper, eq_bytes, is_alnum}
use rustacean.Common.Every.{In}
use rustacean.Cypher.WriteCheck.Grammar.{Lacks, NotNext}
use rustacean.Cypher.Inject.{PathClauseKind, matching, create_or_merge, is_ascii_whitespace}
use rustacean.Cypher.Inject.Grammar.{
  NodePart, EdgePart, open_brace, close_brace, open_square, close_square, Item, text, ticked, line,
  block, word, edge, node, semicolon, other, render_node, render_edge, render_before, render,
  Clause, ItemIsValid,
}
use rustacean.Cypher.Inject.Scoping.{Chunk, verbatim, pattern}

-- The words that begin a path clause, and the kind of the clause.
abbrev pub openers : List (List ℕ × PathClauseKind)
openers =
    (codes "MATCH", matching)
    ∷ (codes "CREATE", create_or_merge)
    ∷ (codes "MERGE", create_or_merge)
    ∷ []

abbrev pub opening : List ℕ → List (List ℕ × PathClauseKind) → Option PathClauseKind
opening w [] = none
opening w ((opener, kind) ∷ entries) =
    let rest = opening w entries in if eq_bytes w opener then some kind else rest

-- The words that end one.
abbrev pub enders : List (List ℕ)
enders = map codes (
    "WHERE" ∷ "WITH" ∷ "RETURN" ∷ "SET" ∷ "REMOVE" ∷ "DELETE" ∷ "DETACH" ∷ "ORDER" ∷ "SKIP"
    ∷ "LIMIT" ∷ "UNION" ∷ "UNWIND" ∷ "CALL" ∷ "YIELD" ∷ "CASE" ∷ "WHEN" ∷ "THEN" ∷ "ELSE" ∷ "END"
    ∷ [])

-- Blanks and the characters of names, below 256.
abbrev pub is_blank : ℕ → Bool
is_blank c = any (λ b. c == b) (b' ' ∷ b'\t' ∷ b'\n' ∷ 11 ∷ 12 ∷ b'\r' ∷ 0x85 ∷ 0xa0 ∷ [])

abbrev pub is_name_char : ℕ → Bool
is_name_char c =
    is_alnum c
    || c == b'_'
    || any (λ b. c == b) (0xaa ∷ 0xb2 ∷ 0xb3 ∷ 0xb5 ∷ 0xb9 ∷ 0xba ∷ 0xbc ∷ 0xbd ∷ 0xbe ∷ [])
    || (leb 0xc0 c && (leb c 0xff && not (c == 0xd7 || c == 0xf7)))

-- The characters of a name in front, and what follows them.
abbrev pub name_in_front : List ℕ → List ℕ
name_in_front [] = []
name_in_front (c ∷ cs) = let rest = name_in_front cs in if is_name_char c then c ∷ rest else []

abbrev pub behind_name : List ℕ → List ℕ
behind_name [] = []
behind_name (c ∷ cs) = let rest = behind_name cs in if is_name_char c then rest else c ∷ cs

abbrev pub behind_blanks : List ℕ → List ℕ
behind_blanks [] = []
behind_blanks (c ∷ cs) = let rest = behind_blanks cs in if is_blank c then rest else c ∷ cs

-- The variable of a node pattern, `[]` if it has none.
abbrev pub variable_of : List ℕ → List ℕ
variable_of inner = name_in_front (behind_blanks inner)

-- It holds a variable and nothing else.
abbrev pub is_bare : List ℕ → Bool
is_bare inner =
    all is_blank (behind_name (behind_blanks inner)) && not (eq_bytes (variable_of inner) [])

abbrev pub writes_pattern : Option PathClauseKind → Bool
writes_pattern none = false
writes_pattern (some matching) = false
writes_pattern (some create_or_merge) = true

abbrev pub reads_pattern : Option PathClauseKind → Bool
reads_pattern none = false
reads_pattern (some matching) = true
reads_pattern (some create_or_merge) = false

-- The clause behind a word, and behind a node pattern.
abbrev pub behind_word : Clause → List ℕ → Clause
behind_word k upper = elim (opening upper openers) [
  | some kind ↦ record k {
    last_was_ident = false;
    in_path_clause = true;
    path_clause_kind = some kind;
  }
  | none ↦
      if any (eq_bytes upper) enders
      then record k { last_was_ident = true; in_path_clause = false; path_clause_kind = none }
      else record k { last_was_ident = true }
]

abbrev pub behind_node : Clause → List ℕ → Clause
behind_node k inner =
    if reads_pattern k.path_clause_kind && not (eq_bytes (variable_of inner) [])
    then record k { last_was_ident = false; bound_vars = variable_of inner ∷ k.bound_vars }
    else record k { last_was_ident = false }

abbrev pub behind : Clause → Item → Clause
behind k (text q ps) = record k { last_was_ident = false }
behind k (ticked bs) = record k { last_was_ident = true }
behind k (word w) = behind_word k (map to_upper w)
behind k (edge ps) = record k { last_was_ident = false }
behind k (node ps) = behind_node k (render_node ps)
behind k (other b) = if is_ascii_whitespace b then k else record k { last_was_ident = false }
behind k (line bs) = k
behind k (block bs) = k
behind k semicolon = k

-- Each item is closed, and node patterns stand where a path clause expects them.
abbrev pub IsQuery : Clause → List Item → Type 0
IsQuery k [] = Unit {0}
IsQuery k (i ∷ items) = ItemIsValid k i (render items) × IsQuery (behind k i) items

-- The byte begins no comment and no quoted name.
abbrev pub IsPlainByte : ℕ → List ℕ → Type 0
IsPlainByte b rest =
    ((b == b'`') ≡ false) × (b ≡ b'/' → NotNext b'/' rest) × (b ≡ b'/' → NotNext b'*' rest)

abbrev pub NodeIsPlain : List NodePart → Type 0
NodeIsPlain [] = Unit {0}
NodeIsPlain (NodePart.byte b ∷ ps) = IsPlainByte b (render_node ps) × NodeIsPlain ps
NodeIsPlain (NodePart.string q cs ∷ ps) = NodeIsPlain ps
NodeIsPlain (open_brace ∷ ps) = NodeIsPlain ps
NodeIsPlain (close_brace ∷ ps) = NodeIsPlain ps

abbrev pub EdgeIsPlain : List EdgePart → Type 0
EdgeIsPlain [] = Unit {0}
EdgeIsPlain (EdgePart.byte b ∷ ps) = IsPlainByte b (render_edge ps) × EdgeIsPlain ps
EdgeIsPlain (EdgePart.string q cs ∷ ps) = Lacks b'\\' cs × EdgeIsPlain ps
EdgeIsPlain (open_square ∷ ps) = EdgeIsPlain ps
EdgeIsPlain (close_square ∷ ps) = EdgeIsPlain ps

-- No comment and no quoted name stands inside a pattern, and no backslash in a string of a relationship
-- pattern, so a pattern ends where Cypher ends it.
abbrev pub PatternsArePlain : List Item → Type 0
PatternsArePlain [] = Unit {0}
PatternsArePlain (node ps ∷ items) = NodeIsPlain ps × PatternsArePlain items
PatternsArePlain (edge ps ∷ items) = EdgeIsPlain ps × PatternsArePlain items
PatternsArePlain (i ∷ items) = PatternsArePlain items

-- The label stands first behind the blanks and the variable.
pub record IsLabelled (label before after : List ℕ) : Type 0 where
  pub blanks : List ℕ
  pub variable : List ℕ
  pub rest : List ℕ
  pub blanks_all : all is_blank blanks ≡ true
  pub variable_all : all is_name_char variable ≡ true
  pub first : variable ≡ variable_of before
  pub whole : before ≡ blanks ++ (variable ++ rest)
  pub labelled : after ≡ blanks ++ (variable ++ (b':' ∷ (label ++ rest)))

-- The output, item by item. Every item is copied but the node patterns; each of them gets the label, or
-- it is copied when it is nothing but a variable that an earlier pattern with the label has.
abbrev pub IsGuarded : List ℕ → List (List ℕ) → List Item → List Chunk → Type 0
IsGuarded label declared [] [] = Unit {0}
IsGuarded label declared (node ps ∷ items) (pattern inner ∷ cs) =
    (IsLabelled label (render_node ps) inner
      × IsGuarded label (variable_of (render_node ps) ∷ declared) items cs)
    ⊎ ((inner ≡ render_node ps)
        × (is_bare (render_node ps) ≡ true)
        × In (variable_of (render_node ps)) declared
        × IsGuarded label declared items cs)
IsGuarded label declared (node ps ∷ items) (verbatim bs ∷ cs) = ⊥
IsGuarded label declared (i ∷ items) (verbatim bs ∷ cs) =
    (bs ≡ render_before i []) × IsGuarded label declared items cs
IsGuarded label declared items cs = ⊥
