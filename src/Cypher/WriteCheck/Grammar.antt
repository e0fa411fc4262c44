-- ===== src/Cypher/WriteCheck/Grammar.antt =====
-- crates/rb-storage-neo4j/src/write_check.rs: an independent description of what the scanner reads.
-- A query is a sequence of lexical tokens of Cypher, written one after the other.
use rustacean.Common.{ℕ, Bool, true, false, ◌||◌, List, [], ◌∷◌, ◌++◌, map, any, all, ◌==◌, ◌≡◌}
use rustacean.Common.Bytes.{codes, is_alpha, to_upper, eq_bytes}
use rustacean.Cypher.Scan.{is_ident_char, Stops}

pub data Quote : Type 0 where
  single double : Quote

abbrev pub mark : Quote → ℕ
mark single = b'\''
mark double = b'"'

-- What a string holds: bytes, and bytes behind a backslash.
pub data Piece : Type 0 where
  plain escaped : ℕ → Piece

pub data Token : Type 0 where
  text : Quote → List Piece → Token
  ticked line block word : List ℕ → Token
  other : ℕ → Token

abbrev pub render_pieces : List Piece → List ℕ
render_pieces [] = []
render_pieces (plain b ∷ ps) = b ∷ render_pieces ps
render_pieces (escaped b ∷ ps) = b'\\' ∷ b ∷ render_pieces ps

-- The bytes of a token, with those of the tokens behind it.
abbrev pub render_before : Token → List ℕ → List ℕ
render_before (text q ps) rest = mark q ∷ (render_pieces ps ++ (mark q ∷ rest))
render_before (ticked bs) rest = b'`' ∷ (bs ++ (b'`' ∷ rest))
render_before (line bs) rest = b'/' ∷ b'/' ∷ (bs ++ (b'\n' ∷ rest))
render_before (block bs) rest = b'/' ∷ b'*' ∷ (bs ++ (b'*' ∷ b'/' ∷ rest))
render_before (word w) rest = w ++ rest
render_before (other b) rest = b ∷ rest

abbrev pub render : List Token → List ℕ
render [] = []
render (t ∷ ts) = render_before t (render ts)

abbrev pub PieceIsValid : Quote → Piece → Type 0
PieceIsValid q (plain b) = ((b == mark q) ≡ false) × ((b == b'\\') ≡ false)
PieceIsValid q (escaped b) = Unit {0}

abbrev pub PiecesAreValid : Quote → List Piece → Type 0
PiecesAreValid q [] = Unit {0}
PiecesAreValid q (p ∷ ps) = PieceIsValid q p × PiecesAreValid q ps

abbrev pub Lacks : ℕ → List ℕ → Type 0
Lacks c [] = Unit {0}
Lacks c (b ∷ bs) = ((b == c) ≡ false) × Lacks c bs

-- The next byte is not `c`.
abbrev pub NotNext : ℕ → List ℕ → Type 0
NotNext c [] = Unit {0}
NotNext c (b ∷ bs) = (b == c) ≡ false

-- No `*/` inside.
abbrev pub LacksEnd : List ℕ → Type 0
LacksEnd [] = Unit {0}
LacksEnd (b ∷ bs) = (b ≡ b'*' → NotNext b'/' bs) × LacksEnd bs

-- A word begins with a letter or an underscore.
abbrev pub StartsWord : List ℕ → Type 0
StartsWord [] = ⊥
StartsWord (b ∷ bs) = (is_alpha b || b == b'_') ≡ true

-- A byte that begins no word and no string, and a slash that begins no comment.
pub record OtherIsValid (b : ℕ) (rest : List ℕ) : Type 0 where
  pub not_single : (b == b'\'') ≡ false
  pub not_double : (b == b'"') ≡ false
  pub not_tick : (b == b'`') ≡ false
  pub not_word : (is_alpha b || b == b'_') ≡ false
  pub not_line : b ≡ b'/' → NotNext b'/' rest
  pub not_block : b ≡ b'/' → NotNext b'*' rest

-- Each token is closed and ends where the next begins.
abbrev pub IsQuery : List Token → Type 0
IsQuery [] = Unit {0}
IsQuery (text q ps ∷ ts) = PiecesAreValid q ps × IsQuery ts
IsQuery (ticked bs ∷ ts) = Lacks b'`' bs × IsQuery ts
IsQuery (line bs ∷ ts) = Lacks b'\n' bs × IsQuery ts
IsQuery (block bs ∷ ts) = LacksEnd bs × IsQuery ts
IsQuery (word w ∷ ts) = StartsWord w × (all is_ident_char w ≡ true) × Stops (render ts) × IsQuery ts
IsQuery (other b ∷ ts) = OtherIsValid b (render ts) × IsQuery ts

-- The write clauses of Cypher, in any case.
abbrev pub write_clauses : List (List ℕ)
write_clauses =
    codes "SET"
    ∷ codes "MERGE"
    ∷ codes "CREATE"
    ∷ codes "DELETE"
    ∷ codes "DETACH"
    ∷ codes "REMOVE"
    ∷ []

abbrev pub is_write_clause : List ℕ → Bool
is_write_clause w = any (eq_bytes (map to_upper w)) write_clauses

abbrev pub writes : List Token → Bool
writes [] = false
writes (word w ∷ ts) = is_write_clause w || writes ts
writes (t ∷ ts) = writes ts
