-- ===== src/Cypher/Inject/Scanned.antt =====
-- crates/rb-storage-neo4j/src/injector.rs: the theorems on queries of lexical items, in the scanner's
-- own view of clauses and names.
use mathlib.Core.List.{append-nil}
use rustacean.Common.{
  ℕ, suc, ◌≡◌, sym, ◌∙◌, subst, ◌⊎◌, inl, inr, ◌↔◌, true, false, some, List, [], ◌∷◌, ◌++◌, length,
  arith, if◌then◌else◌, Bool-cases,
}
use rustacean.Common.Every.{In}
use rustacean.Cypher.Scan.{normal}
use rustacean.Cypher.Inject.Node.{splice_label, var_name}
use rustacean.Cypher.Inject.{multi_statement, ok, err, parens, inject_tenant_label}
use rustacean.Cypher.Inject.Grammar.{
  Item, text, ticked, line, block, word, edge, node, semicolon, other, render, Clause, at, outside,
  refers, node_clause, word_clause, after, IsScanned,
}
use rustacean.Cypher.Inject.Tokens.{
  prepend, Yields, Yields-nil, Yields-text, Yields-ticked, Yields-line, Yields-block,
}
use rustacean.Cypher.Inject.Words.{
  Yields-word, Yields-edge, Yields-node, Yields-other, Yields-semicolon, scoped_node,
}
use rustacean.Cypher.Inject.Scoping.{
  Chunk, verbatim, pattern, written, has_semicolon, chunk, chunks, outcome, any-eq_bytes-In,
}

abbrev bytes_of : Chunk → List ℕ
bytes_of (verbatim bs) = bs
bytes_of (pattern inner) = parens inner

module _ (label : List ℕ) where
  -- An item that is no semicolon adds its chunk.
  Yields-chunk :
      (k k' : Clause) (bytes bs : List ℕ) (items : List Item)
      → Yields label (at normal k) bytes (prepend bs (outcome label k' items))
      → Yields label (at normal k) bytes (
          if has_semicolon items
          then err multi_statement
          else ok (bs ++ written (chunks label k' items)))
  Yields-chunk k k' bytes bs items h = elim (Bool-cases (has_semicolon items)) [
    | inl e ↦ rw e (rw e at h)
    | inr e ↦ rw e (rw e at h)
  ]

  Yields-render :
      (items : List Item) (k : Clause)
      → IsScanned k items
      → Yields label (at normal k) (render items) (outcome label k items)
  Yields-render [] k v = Yields-nil label (at normal k)
  Yields-render (text q ps ∷ items) k v =
      Yields-chunk k _ _ (bytes_of (chunk label k (text q ps))) items
        (Yields-text label q k ps _ _ v.0 (Yields-render items (after k (text q ps)) v.1))
  Yields-render (ticked bs ∷ items) k v =
      Yields-chunk k _ _ (bytes_of (chunk label k (ticked bs))) items
        (Yields-ticked label k bs _ _ v.0 (Yields-render items (after k (ticked bs)) v.1))
  Yields-render (line bs ∷ items) k v =
      Yields-chunk k _ _ (bytes_of (chunk label k (line bs))) items
        (Yields-line label k bs _ _ v.0 (Yields-render items k v.1))
  Yields-render (block bs ∷ items) k v =
      Yields-chunk k _ _ (bytes_of (chunk label k (block bs))) items
        (Yields-block label k bs _ _ v.0 (Yields-render items k v.1))
  Yields-render (word w ∷ items) k v = Yields-chunk k _ _ (w ++ []) items (
      subst
        (λ bs.
          Yields label (at normal k) (w ++ render items)
            (prepend bs (outcome label (after k (word w)) items)))
        (sym (append-nil w))
        (Yields-word label k w _ _ v.0.0 v.0.1 (Yields-render items (after k (word w)) v.1)))
  Yields-render (edge ps ∷ items) k v =
      Yields-chunk k _ _ (bytes_of (chunk label k (edge ps))) items
        (Yields-edge label k ps _ _ v.0 (Yields-render items (after k (edge ps)) v.1))
  Yields-render (node ps ∷ items) k v =
      Yields-chunk k _ _ (bytes_of (chunk label k (node ps))) items
        (Yields-node label k ps _ _ v.0.0 v.0.1 (Yields-render items (after k (node ps)) v.1))
  Yields-render (semicolon ∷ items) k v = Yields-semicolon label k _
  Yields-render (other b ∷ items) k v =
      Yields-chunk k _ _ (bytes_of (chunk label k (other b))) items
        (Yields-other label k b _ _ v.0 (Yields-render items (after k (other b)) v.1))

pub scoped_refers :
    (label : List ℕ) (k : Clause) (inner : List ℕ)
    → refers k inner ≡ true
    → scoped_node label k inner ≡ inner
scoped_refers label k inner e = rw e

pub scoped_spliced :
    (label : List ℕ) (k : Clause) (inner : List ℕ)
    → refers k inner ≡ false
    → scoped_node label k inner ≡ splice_label inner label
scoped_spliced label k inner e = rw e

-- Every variable that counts as bound is declared by a labelled pattern.
abbrev pub Declared : List (List ℕ) → Clause → Type 0
Declared declared k = (v : List ℕ) → In v k.bound_vars → In v declared

pub word_clause-bound_vars :
    (k : Clause) (upper : List ℕ) → (word_clause k upper).bound_vars ≡ k.bound_vars
word_clause-bound_vars k upper = ground arith

pub refers-In :
    (k : Clause) (inner : List ℕ) → refers k inner ≡ true → In (var_name inner) k.bound_vars
refers-In k inner h = any-eq_bytes-In (var_name inner) k.bound_vars (ground arith)

pub other_clause-bound_vars : (k : Clause) (b : ℕ) → (after k (other b)).bound_vars ≡ k.bound_vars
other_clause-bound_vars k b = ground arith

pub refers-bound_vars :
    (k : Clause) (inner : List ℕ)
    → refers k inner ≡ true
    → (node_clause k inner).bound_vars ≡ k.bound_vars
refers-bound_vars k inner e = rw e

-- A pattern binds no variable but its own.
node_clause-bound_vars :
    (k : Clause) (inner : List ℕ)
    → ((node_clause k inner).bound_vars ≡ k.bound_vars)
      ⊎ ((node_clause k inner).bound_vars ≡ var_name inner ∷ k.bound_vars)
node_clause-bound_vars k inner = ground arith

pub Declared-node :
    (k : Clause) (inner name : List ℕ) (declared : List (List ℕ))
    → name ≡ var_name inner
    → Declared declared k
    → Declared (name ∷ declared) (node_clause k inner)
Declared-node k inner name declared e d v m = elim (node_clause-bound_vars k inner) [
  | inl q ↦ inr (d v (subst (In v) q m))
  | inr q ↦ elim (subst (In v) q m) [ inl p ↦ inl (p ∙ sym e) | inr p ↦ inr (d v p) ]
]

semicolon_of :
    (label : List ℕ) (items : List Item)
    → some (prepend [] (outcome label outside items)) ≡ some (err multi_statement)
    → has_semicolon items ≡ true
semicolon_of label items e = elim (Bool-cases (has_semicolon items)) [
  | inl h ↦ h
  | inr h ↦
      let q : some (ok (written (chunks label outside items))) ≡ some (err multi_statement) =
        rw h at e in
      cc
]

-- With the scanner's own view of clauses and names: when it fails.
pub scanned-semicolon :
    (items : List Item) (label : List ℕ)
    → IsScanned outside items
    → (inject_tenant_label (render items) label ≡ some (err multi_statement))
      ↔ (has_semicolon items ≡ true)
unfolding inject_tenant_label
scanned-semicolon items label v = (λ e. semicolon_of label items (sym run ∙ e), λ h. run ∙ rw h)
  where
    run : inject_tenant_label (render items) label ≡ some (prepend [] (outcome label outside items))
    run = Yields-render label items outside v (suc (length (render items))) [] (omega arith)

-- With the same view: what comes back.
pub scanned_runs :
    (items : List Item) (label : List ℕ)
    → IsScanned outside items
    → has_semicolon items ≡ false
    → inject_tenant_label (render items) label ≡ some (ok (written (chunks label outside items)))
unfolding inject_tenant_label
scanned_runs items label v h =
    Yields-render label items outside v (suc (length (render items))) [] (omega arith) ∙ rw h
