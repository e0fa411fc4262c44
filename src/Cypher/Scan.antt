-- ===== src/Cypher/Scan.antt =====
-- What the two scanners of crates/rb-storage-neo4j/src share: the lexical states, and runs of
-- identifier characters.
use rustacean.Common.{
  ℕ, ◌≤◌, Bool, true, false, ◌||◌, List, [], ◌∷◌, ◌++◌, length, all, arith, ◌==◌, if◌then◌else◌,
  ◌≡◌, refl,
}
use rustacean.Common.Bytes.{is_alnum}

pub data ScanState : Type 0 where
  normal single_quote double_quote backtick line_comment block_comment : ScanState

abbrev pub is_ident_char : ℕ → Bool
is_ident_char b = is_alnum b || b == b'_'

-- `while i < len && is_ident_char(bytes[i]) { i += 1; }`: the slice that the loop runs over, and
-- what it leaves.
unfoldable pub take_word : List ℕ → List ℕ
take_word [] = []
take_word (b ∷ bs) = let rest = take_word bs in if is_ident_char b then b ∷ rest else []

unfoldable pub drop_word : List ℕ → List ℕ
drop_word [] = []
drop_word (b ∷ bs) = let rest = drop_word bs in if is_ident_char b then rest else b ∷ bs

pub take_word-append-drop_word : (bs : List ℕ) → take_word bs ++ drop_word bs ≡ bs
unfolding take_word drop_word
take_word-append-drop_word [] = refl
take_word-append-drop_word (b ∷ bs) = ground (arith, take_word-append-drop_word bs)

pub length-drop_word-le : (bs : List ℕ) → length (drop_word bs) ≤ length bs
unfolding drop_word
length-drop_word-le [] = omega arith
length-drop_word-le (b ∷ bs) = ground (arith, length-drop_word-le bs)

-- The byte behind a word, if there is one, is no identifier character.
abbrev pub Stops : List ℕ → Type 0
Stops [] = Unit {0}
Stops (b ∷ bs) = is_ident_char b ≡ false

pub take_word-append :
    (w rest : List ℕ) → all is_ident_char w ≡ true → Stops rest → take_word (w ++ rest) ≡ w
unfolding take_word
take_word-append [] [] h s = refl
take_word-append [] (b ∷ bs) h s = ground arith
take_word-append (c ∷ w) rest h s = ground (arith, take_word-append w rest)

pub drop_word-append :
    (w rest : List ℕ) → all is_ident_char w ≡ true → Stops rest → drop_word (w ++ rest) ≡ rest
unfolding drop_word
drop_word-append [] [] h s = refl
drop_word-append [] (b ∷ bs) h s = ground arith
drop_word-append (c ∷ w) rest h s = ground (arith, drop_word-append w rest)

-- A word that an identifier character begins takes at least that byte.
pub drop_word-shrinks :
    (b : ℕ) (bs : List ℕ) → is_ident_char b ≡ true → length (drop_word (b ∷ bs)) ≤ length bs
unfolding drop_word
drop_word-shrinks b bs h = rw (h, drop_word) (length-drop_word-le bs)
