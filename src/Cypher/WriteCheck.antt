-- ===== src/Cypher/WriteCheck.antt =====
-- crates/rb-storage-neo4j/src/write_check.rs: is there a write keyword outside strings and comments?
pub mod Grammar
pub mod Returns
pub mod Tokens
use rustacean.Common.{
  ℕ, zero, suc, Bool, true, false, ◌&&◌, ◌||◌, Option, none, some, List, [], ◌∷◌, length, ◌==◌,
  if◌then◌else◌,
}
use rustacean.Common.Bytes.{codes, is_alpha, to_upper}
use rustacean.Cypher.Scan.{
  ScanState, normal, single_quote, double_quote, backtick, line_comment, block_comment, take_word,
  drop_word,
}

-- `a.len() == upper.len() && a.bytes().zip(upper.bytes()).all(..)`
abbrev pub zip_all : List ℕ → List ℕ → Bool
zip_all [] upper = true
zip_all (x ∷ a) [] = true
zip_all (x ∷ a) (y ∷ upper) = to_upper x == y && zip_all a upper

abbrev pub eq_ci : List ℕ → List ℕ → Bool
eq_ci a upper = length a == length upper && zip_all a upper

unfoldable pub is_write_keyword : List ℕ → Bool
is_write_keyword word =
    if length word == 3
    then eq_ci word (codes "SET")
    else if length word == 5
    then eq_ci word (codes "MERGE")
    else if length word == 6
    then eq_ci word (codes "CREATE")
      || eq_ci word (codes "DELETE")
      || eq_ci word (codes "DETACH")
      || eq_ci word (codes "REMOVE")
    else false

-- One turn of the loop: `return true`, or the next state and what is left of the query.
pub data Turn : Type 0 where
  write_found : Turn
  goes_on : ScanState → List ℕ → Turn

-- `bytes[i + 1] == c`, with `i + 1 < len`.
abbrev pub next_is : ℕ → List ℕ → Bool
next_is c [] = false
next_is c (b ∷ bs) = b == c

abbrev pub skip : List ℕ → List ℕ
skip [] = []
skip (b ∷ bs) = bs

-- A byte inside a string that the byte `quote` ends.
abbrev pub quoted_turn : ScanState → ℕ → ℕ → List ℕ → Turn
quoted_turn state quote b [] = goes_on (if b == quote then normal else state) []
quoted_turn state quote b (c ∷ rest) =
    if b == b'\\'
    then goes_on state rest
    else goes_on (if b == quote then normal else state) (c ∷ rest)

word_turn : ℕ → List ℕ → Turn
word_turn b rest =
    if is_write_keyword (take_word (b ∷ rest))
    then write_found
    else goes_on normal (drop_word (b ∷ rest))

normal_turn : ℕ → List ℕ → Turn
normal_turn b rest =
    if b == b'\''
    then goes_on single_quote rest
    else if b == b'"'
    then goes_on double_quote rest
    else if b == b'`'
    then goes_on backtick rest
    else if b == b'/' && next_is b'/' rest
    then goes_on line_comment (skip rest)
    else if b == b'/' && next_is b'*' rest
    then goes_on block_comment (skip rest)
    else if is_alpha b || b == b'_'
    then word_turn b rest
    else goes_on normal rest

pub turn : ScanState → ℕ → List ℕ → Turn
unfolding normal_turn word_turn
turn single_quote b rest = quoted_turn single_quote b'\'' b rest
turn double_quote b rest = quoted_turn double_quote b'"' b rest
turn backtick b rest = goes_on (if b == b'`' then normal else backtick) rest
turn line_comment b rest = goes_on (if b == b'\n' then normal else line_comment) rest
turn block_comment b rest =
    if b == b'*' && next_is b'/' rest
    then goes_on normal (skip rest)
    else goes_on block_comment rest
turn normal b rest = normal_turn b rest

-- The loop, on fuel; `none` says that the fuel ran out.
unfoldable pub scan : ℕ → ScanState → List ℕ → Option Bool
scan zero state bytes = none
scan (suc fuel) state [] = some false
scan (suc fuel) state (b ∷ rest) = elim (turn state b rest) [
  | write_found ↦ some true
  | goes_on state' rest' ↦ scan fuel state' rest'
]

-- Every turn takes a byte, so one more than the length is enough.
unfoldable pub has_write_operators : List ℕ → Option Bool
unfolding scan turn
has_write_operators cypher = scan (suc (length cypher)) normal cypher
