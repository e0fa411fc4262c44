-- ===== src/Cypher/Inject/Grammar.antt =====
-- crates/rb-storage-neo4j/src/injector.rs: the lexical items of a query, and how the scanner goes from
-- one to the next.
use rustacean.Common.{
  ℕ, zero, suc, ◌<◌, ◌≡◌, Bool, true, false, not, ◌&&◌, Option, none, some, List, [], ◌∷◌, ◌++◌,
  map, all, any, if◌then◌else◌,
}
use rustacean.Common.Bytes.{to_upper, eq_bytes}
use rustacean.Cypher.Scan.{ScanState, is_ident_char, Stops}
use rustacean.Cypher.WriteCheck.Grammar.{
  Quote, mark, Piece, render_pieces, PiecesAreValid, Lacks, NotNext, LacksEnd,
}
use rustacean.Cypher.Inject.Node.{var_name, rest_after_var, is_empty}
use rustacean.Cypher.Inject.{
  PathClauseKind, Context, path_start_kind, is_path_end, is_create_or_merge, is_match,
  is_ascii_whitespace,
}

-- The parts of a node pattern: bytes, strings, and the braces of property maps.
pub data NodePart : Type 0 where
  byte : ℕ → NodePart
  string : Quote → List Piece → NodePart
  open_brace close_brace : NodePart

-- The parts of a relationship pattern. Its strings have no escapes.
pub data EdgePart : Type 0 where
  byte : ℕ → EdgePart
  string : Quote → List ℕ → EdgePart
  open_square close_square : EdgePart

pub data Item : Type 0 where
  text : Quote → List Piece → Item
  ticked line block word : List ℕ → Item
  edge : List EdgePart → Item
  node : List NodePart → Item
  semicolon : Item
  other : ℕ → Item

abbrev pub render_node : List NodePart → List ℕ
render_node [] = []
render_node (NodePart.byte b ∷ ps) = b ∷ render_node ps
render_node (NodePart.string q cs ∷ ps) = mark q ∷ (render_pieces cs ++ (mark q ∷ render_node ps))
render_node (open_brace ∷ ps) = b'{' ∷ render_node ps
render_node (close_brace ∷ ps) = b'}' ∷ render_node ps

abbrev pub render_edge : List EdgePart → List ℕ
render_edge [] = []
render_edge (EdgePart.byte b ∷ ps) = b ∷ render_edge ps
render_edge (EdgePart.string q cs ∷ ps) = mark q ∷ (cs ++ (mark q ∷ render_edge ps))
render_edge (open_square ∷ ps) = b'[' ∷ render_edge ps
render_edge (close_square ∷ ps) = b']' ∷ render_edge ps

-- The bytes of an item, with those of the items behind it.
abbrev pub render_before : Item → List ℕ → List ℕ
render_before (text q ps) rest = mark q ∷ (render_pieces ps ++ (mark q ∷ rest))
render_before (ticked bs) rest = b'`' ∷ (bs ++ (b'`' ∷ rest))
render_before (line bs) rest = b'/' ∷ b'/' ∷ (bs ++ (b'\n' ∷ rest))
render_before (block bs) rest = b'/' ∷ b'*' ∷ (bs ++ (b'*' ∷ b'/' ∷ rest))
render_before (word w) rest = w ++ rest
render_before (edge ps) rest = b'[' ∷ (render_edge ps ++ (b']' ∷ rest))
render_before (node ps) rest = b'(' ∷ (render_node ps ++ (b')' ∷ rest))
render_before semicolon rest = b';' ∷ rest
render_before (other b) rest = b ∷ rest

abbrev pub render : List Item → List ℕ
render [] = []
render (i ∷ items) = render_before i (render items)

-- Where the scanner stands between two items.
pub record Clause : Type 0 where
  pub last_was_ident : Bool
  pub in_path_clause : Bool
  pub path_clause_kind : Option PathClauseKind
  pub bound_vars : List (List ℕ)

abbrev pub at : ScanState → Clause → Context
at s k = record {
  state = s;
  last_was_ident = k.last_was_ident;
  in_path_clause = k.in_path_clause;
  path_clause_kind = k.path_clause_kind;
  bound_vars = k.bound_vars;
}

abbrev pub outside : Clause
outside = record {
  last_was_ident = false;
  in_path_clause = false;
  path_clause_kind = none;
  bound_vars = [];
}

abbrev pub word_clause : Clause → List ℕ → Clause
word_clause k upper = elim (path_start_kind upper) [
  | some kind ↦ record k {
    last_was_ident = false;
    in_path_clause = true;
    path_clause_kind = some kind;
  }
  | none ↦
      if is_path_end upper
      then record k { last_was_ident = true; in_path_clause = false; path_clause_kind = none }
      else record k { last_was_ident = true }
]

-- A node of MERGE or CREATE that holds nothing but a variable which a MATCH has bound.
abbrev pub refers : Clause → List ℕ → Bool
refers k inner =
    is_create_or_merge k.path_clause_kind
    && (not (is_empty (var_name inner))
        && (is_empty (rest_after_var inner) && any (eq_bytes (var_name inner)) k.bound_vars))

abbrev pub node_clause : Clause → List ℕ → Clause
node_clause k inner =
    if refers k inner
    then record k { last_was_ident = false }
    else if is_match k.path_clause_kind && not (is_empty (var_name inner))
    then record k { last_was_ident = false; bound_vars = var_name inner ∷ k.bound_vars }
    else record k { last_was_ident = false }

abbrev pub after : Clause → Item → Clause
after k (text q ps) = record k { last_was_ident = false }
after k (ticked bs) = record k { last_was_ident = true }
after k (word w) = word_clause k (map to_upper w)
after k (edge ps) = record k { last_was_ident = false }
after k (node ps) = node_clause k (render_node ps)
after k (other b) = if is_ascii_whitespace b then k else record k { last_was_ident = false }
after k i = k

-- A node pattern may open here.
abbrev pub expects_node : Clause → Bool
expects_node k = k.in_path_clause && not k.last_was_ident

abbrev pub NodePartsAreValid : ℕ → List NodePart → Type 0
NodePartsAreValid depth [] = depth ≡ 0
NodePartsAreValid depth (NodePart.byte b ∷ ps) =
    (Lacks b (b'\'' ∷ b'"' ∷ b'{' ∷ b'}' ∷ []))
    × (b ≡ b')' → 0 < depth)
    × NodePartsAreValid depth ps
NodePartsAreValid depth (NodePart.string q cs ∷ ps) =
    PiecesAreValid q cs × NodePartsAreValid depth ps
NodePartsAreValid depth (open_brace ∷ ps) = NodePartsAreValid (suc depth) ps
NodePartsAreValid zero (close_brace ∷ ps) = ⊥
NodePartsAreValid (suc depth) (close_brace ∷ ps) = NodePartsAreValid depth ps

abbrev pub EdgePartsAreValid : ℕ → List EdgePart → Type 0
EdgePartsAreValid depth [] = depth ≡ 0
EdgePartsAreValid depth (EdgePart.byte b ∷ ps) =
    (Lacks b (b'\'' ∷ b'"' ∷ b'[' ∷ b']' ∷ [])) × EdgePartsAreValid depth ps
EdgePartsAreValid depth (EdgePart.string q cs ∷ ps) = Lacks (mark q) cs × EdgePartsAreValid depth ps
EdgePartsAreValid depth (open_square ∷ ps) = EdgePartsAreValid (suc depth) ps
EdgePartsAreValid zero (close_square ∷ ps) = ⊥
EdgePartsAreValid (suc depth) (close_square ∷ ps) = EdgePartsAreValid depth ps

-- A byte that begins no longer item.
pub record OtherIsValid (k : Clause) (b : ℕ) (rest : List ℕ) : Type 0 where
  pub plain : Lacks b (b'\'' ∷ b'"' ∷ b'`' ∷ b';' ∷ b'[' ∷ [])
  pub not_word : is_ident_char b ≡ false
  pub not_line : b ≡ b'/' → NotNext b'/' rest
  pub not_block : b ≡ b'/' → NotNext b'*' rest
  pub not_node : b ≡ b'(' → expects_node k ≡ false

abbrev pub IsWord : List ℕ → Type 0
IsWord [] = ⊥
IsWord (b ∷ bs) = all is_ident_char (b ∷ bs) ≡ true

-- Each item is closed and ends where the next begins, and node patterns stand where a path clause
-- expects them.
abbrev pub ItemIsValid : Clause → Item → List ℕ → Type 0
ItemIsValid k (text q ps) rest = PiecesAreValid q ps
ItemIsValid k (ticked bs) rest = Lacks b'`' bs
ItemIsValid k (line bs) rest = Lacks b'\n' bs
ItemIsValid k (block bs) rest = LacksEnd bs
ItemIsValid k (word w) rest = IsWord w × Stops rest
ItemIsValid k (edge ps) rest = EdgePartsAreValid 0 ps
ItemIsValid k (node ps) rest = (expects_node k ≡ true) × NodePartsAreValid 0 ps
ItemIsValid k semicolon rest = Unit {0}
ItemIsValid k (other b) rest = OtherIsValid k b rest

abbrev pub IsScanned : Clause → List Item → Type 0
IsScanned k [] = Unit {0}
IsScanned k (i ∷ items) = ItemIsValid k i (render items) × IsScanned (after k i) items
