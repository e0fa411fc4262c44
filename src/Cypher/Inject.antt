-- ===== src/Cypher/Inject.antt =====
-- crates/rb-storage-neo4j/src/injector.rs: the rewriting of a query that puts the tenant's label into
-- its node patterns. `out` is a `String`, written here as its code points: `out.push(b as char)`
-- pushes the code point with the byte's number.
pub mod Node
pub mod Total
pub mod Copies
pub mod Edits
pub mod Insertions
pub mod Grammar
pub mod Tokens
pub mod Patterns
pub mod NodePatterns
pub mod Words
pub mod Scoping
pub mod Scanned
pub mod Language
pub mod Reading
pub mod Isolation
use rustacean.Common.{
  ℕ, zero, suc, Bool, true, false, not, ◌&&◌, ◌||◌, Option, none, some, List, [], ◌∷◌, ◌++◌, map,
  any, length, ◌==◌, if◌then◌else◌,
}
use rustacean.Common.Bytes.{codes, to_upper, eq_bytes}
use rustacean.Cypher.Scan.{
  ScanState, normal, single_quote, double_quote, backtick, line_comment, block_comment,
  is_ident_char, take_word, drop_word,
}
use Node.{
  Bracketed, scan_bracket, open_bracket, Collected, closed, unclosed, collect_node_pattern,
  open_node, splice_label, var_name, rest_after_var, is_empty,
}

pub data PathClauseKind : Type 0 where
  matching create_or_merge : PathClauseKind

pub data CypherError : Type 0 where
  multi_statement unclosed_node_pattern : CypherError

pub data Result : Type 0 where
  ok : List ℕ → Result
  err : CypherError → Result

unfoldable pub path_start_kind : List ℕ → Option PathClauseKind
path_start_kind upper =
    if eq_bytes upper (codes "MATCH")
    then some matching
    else if eq_bytes upper (codes "CREATE") || eq_bytes upper (codes "MERGE")
    then some create_or_merge
    else none

abbrev path_enders : List (List ℕ)
path_enders =
    codes "WHERE"
    ∷ codes "WITH"
    ∷ codes "RETURN"
    ∷ codes "SET"
    ∷ codes "REMOVE"
    ∷ codes "DELETE"
    ∷ codes "DETACH"
    ∷ codes "ORDER"
    ∷ codes "SKIP"
    ∷ codes "LIMIT"
    ∷ codes "UNION"
    ∷ codes "UNWIND"
    ∷ codes "CALL"
    ∷ codes "YIELD"
    ∷ codes "CASE"
    ∷ codes "WHEN"
    ∷ codes "THEN"
    ∷ codes "ELSE"
    ∷ codes "END"
    ∷ []

unfoldable pub is_path_end : List ℕ → Bool
is_path_end upper = any (eq_bytes upper) path_enders

-- The loop's variables other than `i` and `out`.
pub record Context : Type 0 where
  pub state : ScanState
  pub last_was_ident : Bool
  pub in_path_clause : Bool
  pub path_clause_kind : Option PathClauseKind
  pub bound_vars : List (List ℕ)

abbrev pub start : Context
start = record {
  state = normal;
  last_was_ident = false;
  in_path_clause = false;
  path_clause_kind = none;
  bound_vars = [];
}

-- One turn of the loop: an early return, or the new variables, what is pushed to `out`, and the
-- bytes that are left.
pub data Turn : Type 0 where
  fails : CypherError → Turn
  goes_on : Context → List ℕ → List ℕ → Turn

abbrev pub next_is : ℕ → List ℕ → Bool
next_is c [] = false
next_is c (b ∷ bs) = b == c

abbrev pub skip : List ℕ → List ℕ
skip [] = []
skip (b ∷ bs) = bs

-- A byte inside a string that `quote` ends.
abbrev pub quoted_turn : ℕ → Context → ℕ → List ℕ → Turn
quoted_turn quote c b [] =
    goes_on (if b == quote then record c { state = normal; last_was_ident = false } else c) (b ∷ [])
      []
quoted_turn quote c b (d ∷ rest) =
    if b == b'\\'
    then goes_on c (b ∷ d ∷ []) rest
    else goes_on (if b == quote then record c { state = normal; last_was_ident = false } else c)
        (b ∷ []) (d ∷ rest)

-- The variables after a word.
unfoldable pub word_context : Context → List ℕ → Context
word_context c upper = elim (path_start_kind upper) [
  | some kind ↦ record c {
    last_was_ident = false;
    in_path_clause = true;
    path_clause_kind = some kind;
  }
  | none ↦
      if is_path_end upper
      then record c { last_was_ident = true; in_path_clause = false; path_clause_kind = none }
      else record c { last_was_ident = true }
]

pub word_turn : Context → ℕ → List ℕ → Turn
word_turn c b rest =
    let word = take_word (b ∷ rest) in
    goes_on (word_context c (map to_upper word)) word (drop_word (b ∷ rest))

abbrev pub bracket_turn : Context → Bracketed → Turn
bracket_turn c r =
    goes_on (record c { last_was_ident = false }) (b'[' ∷ (r.content ++ (b']' ∷ []))) r.rest

abbrev pub is_create_or_merge : Option PathClauseKind → Bool
is_create_or_merge (some create_or_merge) = true
is_create_or_merge k = false

abbrev pub is_match : Option PathClauseKind → Bool
is_match (some matching) = true
is_match k = false

-- A bare reference, in MERGE or CREATE, to a variable that a MATCH has bound.
unfoldable pub is_bound_ref : Context → List ℕ → Bool
is_bound_ref c inner =
    is_create_or_merge c.path_clause_kind
    && (not (is_empty (var_name inner))
        && (is_empty (rest_after_var inner) && any (eq_bytes (var_name inner)) c.bound_vars))

-- `bound_vars.insert(var_name)`, when a MATCH declares a variable.
unfoldable pub bind_var : Context → List ℕ → Context
bind_var c inner =
    if is_match c.path_clause_kind && not (is_empty (var_name inner))
    then record c { bound_vars = var_name inner ∷ c.bound_vars }
    else c

abbrev pub parens : List ℕ → List ℕ
parens inner = b'(' ∷ (inner ++ (b')' ∷ []))

unfoldable pub node_turn : List ℕ → Context → Collected → Turn
node_turn label c unclosed = fails unclosed_node_pattern
node_turn label c (closed inner rest) =
    if is_bound_ref c inner
    then goes_on (record c { last_was_ident = false }) (parens inner) rest
    else goes_on (record (bind_var c inner) { last_was_ident = false })
        (parens (splice_label inner label)) rest

-- `u8::is_ascii_whitespace`
abbrev pub is_ascii_whitespace : ℕ → Bool
is_ascii_whitespace b = b == b' ' || b == b'\t' || b == b'\n' || b == 12 || b == b'\r'

unfoldable pub normal_turn : List ℕ → Context → ℕ → List ℕ → Turn
normal_turn label c b rest =
    if b == b'\''
    then goes_on (record c { state = single_quote; last_was_ident = false }) (b ∷ []) rest
    else if b == b'"'
    then goes_on (record c { state = double_quote; last_was_ident = false }) (b ∷ []) rest
    else if b == b'`'
    then goes_on (record c { state = backtick }) (b ∷ []) rest
    else if b == b'/' && next_is b'/' rest
    then goes_on (record c { state = line_comment }) (b'/' ∷ b'/' ∷ []) (skip rest)
    else if b == b'/' && next_is b'*' rest
    then goes_on (record c { state = block_comment }) (b'/' ∷ b'*' ∷ []) (skip rest)
    else if b == b';'
    then fails multi_statement
    else if b == b'['
    then bracket_turn c (scan_bracket open_bracket rest)
    else if is_ident_char b
    then word_turn c b rest
    else if b == b'(' && (c.in_path_clause && not c.last_was_ident)
    then node_turn label c (collect_node_pattern open_node rest)
    else goes_on (if is_ascii_whitespace b then c else record c { last_was_ident = false }) (b ∷ [])
        rest

pub state_turn : ScanState → List ℕ → Context → ℕ → List ℕ → Turn
unfolding normal_turn word_turn node_turn
state_turn single_quote label c b rest = quoted_turn b'\'' c b rest
state_turn double_quote label c b rest = quoted_turn b'"' c b rest
state_turn backtick label c b rest =
    goes_on (if b == b'`' then record c { state = normal; last_was_ident = true } else c) (b ∷ [])
      rest
state_turn line_comment label c b rest =
    goes_on (if b == b'\n' then record c { state = normal } else c) (b ∷ []) rest
state_turn block_comment label c b rest =
    if b == b'*' && next_is b'/' rest
    then goes_on (record c { state = normal }) (b ∷ b'/' ∷ []) (skip rest)
    else goes_on c (b ∷ []) rest
state_turn normal label c b rest = normal_turn label c b rest

unfoldable pub turn : List ℕ → Context → ℕ → List ℕ → Turn
unfolding state_turn
turn label c b rest = state_turn c.state label c b rest

-- The loop, on fuel; `none` says that the fuel ran out.
unfoldable pub loop : ℕ → List ℕ → Context → List ℕ → List ℕ → Option Result
loop zero label c out bytes = none
loop (suc fuel) label c out [] = some (ok out)
loop (suc fuel) label c out (b ∷ rest) = elim (turn label c b rest) [
  | fails e ↦ some (err e)
  | goes_on c' pushed rest' ↦ loop fuel label c' (out ++ pushed) rest'
]

-- Every turn takes a byte, so one more than the length is enough.
unfoldable pub inject_tenant_label : List ℕ → List ℕ → Option Result
unfolding loop turn
inject_tenant_label cypher label = loop (suc (length cypher)) label start [] cypher
