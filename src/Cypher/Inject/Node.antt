-- ===== src/Cypher/Inject/Node.antt =====
-- crates/rb-storage-neo4j/src/injector.rs: `scan_bracket`, `collect_node_pattern`, `splice_label`.
use rustacean.Common.{
  ℕ, ◌+◌, ◌-◌, Bool, true, false, not, ◌&&◌, ◌||◌, List, [], ◌∷◌, ◌++◌, leb, ◌==◌, if◌then◌else◌,
}
use rustacean.Common.Bytes.{is_alnum}

pub record Bracket : Type 0 where
  pub depth : ℕ
  pub in_single : Bool
  pub in_double : Bool

abbrev pub open_bracket : Bracket
open_bracket = record { depth = 1; in_single = false; in_double = false }

pub record Bracketed : Type 0 where
  pub content : List ℕ
  pub rest : List ℕ

-- The test that ends the scan: a `]` outside strings that brings `depth` to zero.
abbrev pub closes_bracket : Bracket → ℕ → Bool
closes_bracket s b = not s.in_single && (not s.in_double && (b == b']' && s.depth - 1 == 0))

abbrev pub next_bracket : Bracket → ℕ → Bracket
next_bracket s b =
    if s.in_single
    then (if b == b'\'' then record s { in_single = false } else s)
    else if s.in_double
    then (if b == b'"' then record s { in_double = false } else s)
    else if b == b'\''
    then record s { in_single = true }
    else if b == b'"'
    then record s { in_double = true }
    else if b == b'['
    then record s { depth = s.depth + 1 }
    else if b == b']'
    then record s { depth = s.depth - 1 }
    else s

abbrev pub push_content : ℕ → Bracketed → Bracketed
push_content b r = record { content = b ∷ r.content; rest = r.rest }

-- An unclosed bracket is no error: all that is left is its content.
unfoldable pub scan_bracket : Bracket → List ℕ → Bracketed
scan_bracket s [] = record { content = []; rest = [] }
scan_bracket s (b ∷ bytes) = elim (closes_bracket s b) [
  | true ↦ record { content = []; rest = bytes }
  | false ↦ push_content b (scan_bracket (next_bracket s b) bytes)
]

pub record NodeScan : Type 0 where
  pub brace_depth : ℕ
  pub in_single : Bool
  pub in_double : Bool

abbrev pub open_node : NodeScan
open_node = record { brace_depth = 0; in_single = false; in_double = false }

-- `Err(UnclosedNodePattern)` is `unclosed`.
pub data Collected : Type 0 where
  unclosed : Collected
  closed : List ℕ → List ℕ → Collected

abbrev pub push_inner : List ℕ → Collected → Collected
push_inner bs unclosed = unclosed
push_inner bs (closed inner rest) = closed (bs ++ inner) rest

-- `b')' if brace_depth == 0`, outside strings.
abbrev pub closes_node : NodeScan → ℕ → Bool
closes_node s b = not s.in_single && (not s.in_double && (b == b')' && s.brace_depth == 0))

-- `brace_depth.saturating_sub(1)` is `-` of ℕ.
abbrev pub next_node : NodeScan → ℕ → NodeScan
next_node s b =
    if s.in_single
    then (if b == b'\'' then record s { in_single = false } else s)
    else if s.in_double
    then (if b == b'"' then record s { in_double = false } else s)
    else if b == b'\''
    then record s { in_single = true }
    else if b == b'"'
    then record s { in_double = true }
    else if b == b'{'
    then record s { brace_depth = s.brace_depth + 1 }
    else if b == b'}'
    then record s { brace_depth = s.brace_depth - 1 }
    else s

-- A backslash inside a string takes the next byte with it.
abbrev pub escapes : NodeScan → ℕ → Bool
escapes s b = (s.in_single || s.in_double) && b == b'\\'

unfoldable pub collect_node_pattern : NodeScan → List ℕ → Collected
collect_node_pattern s [] = unclosed
collect_node_pattern s (b ∷ []) = if closes_node s b then closed [] [] else unclosed
collect_node_pattern s (b ∷ c ∷ bytes) = elim (escapes s b) [
  | true ↦ push_inner (b ∷ c ∷ []) (collect_node_pattern s bytes)
  | false ↦ elim (closes_node s b) [
    | true ↦ closed [] (c ∷ bytes)
    | false ↦ push_inner (b ∷ []) (collect_node_pattern (next_node s b) (c ∷ bytes))
  ]
]

-- `char::is_whitespace` and `char::is_alphanumeric` on the code points below 256, which are all that
-- `b as char` gives.
abbrev pub is_whitespace : ℕ → Bool
is_whitespace c = (leb 9 c && leb c 13) || c == 32 || c == 0x85 || c == 0xa0

abbrev latin1_alphanumeric : ℕ → Bool
latin1_alphanumeric c =
    c == 0xaa
    || (c == 0xb2 || c == 0xb3 || c == 0xb5 || c == 0xb9 || c == 0xba)
    || (leb 0xbc c && leb c 0xbe)
    || (leb 0xc0 c && leb c 0xd6)
    || (leb 0xd8 c && leb c 0xf6)
    || (leb 0xf8 c && leb c 0xff)

-- `c.is_alphanumeric() || c == '_'`
unfoldable pub is_var_char : ℕ → Bool
is_var_char c = is_alnum c || latin1_alphanumeric c || c == b'_'

unfoldable pub take_while : (ℕ → Bool) → List ℕ → List ℕ
take_while p [] = []
take_while p (c ∷ cs) = let rest = take_while p cs in if p c then c ∷ rest else []

unfoldable pub drop_while : (ℕ → Bool) → List ℕ → List ℕ
drop_while p [] = []
drop_while p (c ∷ cs) = let rest = drop_while p cs in if p c then rest else c ∷ cs

-- `str::trim_start`
abbrev pub trim_start : List ℕ → List ℕ
trim_start = drop_while is_whitespace

-- `&trimmed[..var_end]`, `&trimmed[var_end..]`
abbrev pub var_name : List ℕ → List ℕ
var_name inner = take_while is_var_char (trim_start inner)

abbrev pub after_var : List ℕ → List ℕ
after_var inner = drop_while is_var_char (trim_start inner)

abbrev pub rest_after_var : List ℕ → List ℕ
rest_after_var inner = trim_start (after_var inner)

abbrev pub is_empty : List ℕ → Bool
is_empty [] = true
is_empty (c ∷ cs) = false

-- `format!("{leading_ws}{var}:{label}{rest}")`
unfoldable pub splice_label : List ℕ → List ℕ → List ℕ
splice_label inner label =
    take_while is_whitespace inner ++ (var_name inner ++ (b':' ∷ (label ++ after_var inner)))
