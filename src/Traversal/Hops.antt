-- ===== src/Traversal/Hops.antt =====
-- crates/rb-query/src/graph/traversal/bfs.rs: which edges a hop finds, and when it reports a cycle.
use rustacean.Common.{
  String, ◌≡◌, refl, sym, ap, ◌∙◌, subst, ◌⊎◌, inl, inr, true, false, none, some, List, [], ◌∷◌,
  ◌++◌, Bool-cases, Option-cases,
}
use rustacean.Common.Every.{In, In-append, In-append_left, In-append_right}
use rustacean.Common.Names.{contains}
use rustacean.Traversal.Types.{RawEdge, Row}
use rustacean.Traversal.Hop.{Hop, take_row, take_rows}

-- The outcome of one row.
pub data RowCase (visited : List String) (edge : String → Row → RawEdge) (row : Row)
    (hop hop' : Hop) : Type 0 where
  nameless : row.fqn ≡ none → hop' ≡ hop → RowCase visited edge row hop hop'
  revisits :
      (a : String)
      → row.fqn ≡ some a
      → contains visited a ≡ true
      → hop' ≡ record hop { cycles_detected = true }
      → RowCase visited edge row hop hop'
  discovers :
      (a : String)
      → row.fqn ≡ some a
      → contains visited a ≡ false
      → hop' ≡ record hop { edges = hop.edges ++ (edge a row ∷ []) }
      → RowCase visited edge row hop hop'

module _ (visited : List String) (edge : String → Row → RawEdge) where
  row_cases :
      (row : Row) (hop : Hop) → RowCase visited edge row hop (take_row visited edge row row.fqn hop)
  row_cases row hop = elim (Option-cases row.fqn) [
    | inl e ↦ nameless e (ap (λ fqn. take_row visited edge row fqn hop) e)
    | inr (a, e) ↦
        let q = ap (λ fqn. take_row visited edge row fqn hop) e in
        elim (Bool-cases (contains visited a)) [
          | inl old ↦ revisits a e old (q ∙ rw old)
          | inr new ↦ discovers a e new (q ∙ rw new)
        ]
  ]

  -- An edge that a row of the list gives.
  pub record FromRow (rows : List Row) (e : RawEdge) : Type 0 where
    pub row : Row
    pub member : In row rows
    pub end : String
    pub named : row.fqn ≡ some end
    pub new : contains visited end ≡ false
    pub made : e ≡ edge end row

  FromRow-later : {r : Row} {rows : List Row} {e : RawEdge} → FromRow rows e → FromRow (r ∷ rows) e
  FromRow-later f = record {
    row = f.row;
    member = inr f.member;
    end = f.end;
    named = f.named;
    new = f.new;
    made = f.made;
  }

  pub take_rows_sound :
      (rows : List Row) (hop : Hop) (e : RawEdge)
      → In e (take_rows visited edge rows hop).edges
      → In e hop.edges ⊎ FromRow rows e
  unfolding take_rows
  take_rows_sound [] hop e m = inl m
  take_rows_sound (row ∷ rows) hop e m =
      elim (take_rows_sound rows (take_row visited edge row row.fqn hop) e m) [
        | inr f ↦ inr (FromRow-later f)
        | inl k ↦ elim (row_cases row hop) [
          | nameless _ q ↦ inl (subst (λ h. In e h.edges) q k)
          | revisits _ _ _ q ↦ inl (subst (λ h. In e h.edges) q k)
          | discovers a named new q ↦
              elim (In-append e hop.edges (edge a row ∷ []) (subst (λ h. In e h.edges) q k)) [
                | inl old ↦ inl old
                | inr (inl made) ↦ inr (record {
                  row = row;
                  member = inl refl;
                  end = a;
                  named = named;
                  new = new;
                  made = made;
                })
                | inr (inr nowhere) ↦ elim nowhere [ ]
              ]
        ]
      ]

  pub take_rows-keeps :
      (rows : List Row) (hop : Hop) (e : RawEdge)
      → In e hop.edges
      → In e (take_rows visited edge rows hop).edges
  unfolding take_rows
  take_rows-keeps [] hop e m = m
  take_rows-keeps (row ∷ rows) hop e m =
      take_rows-keeps rows (take_row visited edge row row.fqn hop) e (elim (row_cases row hop) [
        | nameless _ q ↦ subst (λ h. In e h.edges) (sym q) m
        | revisits _ _ _ q ↦ subst (λ h. In e h.edges) (sym q) m
        | discovers a _ _ q ↦
            subst (λ h. In e h.edges) (sym q) (In-append_left e hop.edges (edge a row ∷ []) m)
      ])

  take_row-new :
      (row : Row) (hop : Hop) (a : String)
      → row.fqn ≡ some a
      → contains visited a ≡ false
      → take_row visited edge row row.fqn hop
        ≡ record hop { edges = hop.edges ++ (edge a row ∷ []) }
  take_row-new row hop a e new = ap (λ fqn. take_row visited edge row fqn hop) e ∙ rw new

  take_row-finds :
      (row : Row) (hop : Hop) (a : String)
      → row.fqn ≡ some a
      → contains visited a ≡ false
      → In (edge a row) (take_row visited edge row row.fqn hop).edges
  take_row-finds row hop a e new =
      subst (λ h. In (edge a row) h.edges) (sym (take_row-new row hop a e new))
        (In-append_right (edge a row) hop.edges (edge a row ∷ []) (inl refl))

  pub take_rows-finds :
      (rows : List Row) (hop : Hop) (row : Row) (a : String)
      → In row rows
      → row.fqn ≡ some a
      → contains visited a ≡ false
      → In (edge a row) (take_rows visited edge rows hop).edges
  unfolding take_rows
  take_rows-finds [] hop row a m e new = elim m [ ]
  take_rows-finds (r ∷ rows) hop row a (inr m) e new =
      take_rows-finds rows (take_row visited edge r r.fqn hop) row a m e new
  take_rows-finds (r ∷ rows) hop row a (inl q) e new =
      take_rows-keeps rows (take_row visited edge r r.fqn hop) (edge a row) (
        subst (λ r. In (edge a row) (take_row visited edge r r.fqn hop).edges) q
          (take_row-finds row hop a e new))

  -- A row that names a visited item.
  pub record Revisit (rows : List Row) : Type 0 where
    pub row : Row
    pub member : In row rows
    pub end : String
    pub named : row.fqn ≡ some end
    pub old : contains visited end ≡ true

  Revisit-later : {r : Row} {rows : List Row} → Revisit rows → Revisit (r ∷ rows)
  Revisit-later f = record {
    row = f.row;
    member = inr f.member;
    end = f.end;
    named = f.named;
    old = f.old;
  }

  pub take_rows-cycle :
      (rows : List Row) (hop : Hop)
      → (take_rows visited edge rows hop).cycles_detected ≡ true
      → (hop.cycles_detected ≡ true) ⊎ Revisit rows
  unfolding take_rows
  take_rows-cycle [] hop h = inl h
  take_rows-cycle (row ∷ rows) hop h =
      elim (take_rows-cycle rows (take_row visited edge row row.fqn hop) h) [
        | inr f ↦ inr (Revisit-later f)
        | inl k ↦ elim (row_cases row hop) [
          | nameless _ q ↦ inl (subst (λ h. h.cycles_detected ≡ true) q k)
          | revisits a named old q ↦
              inr (record { row = row; member = inl refl; end = a; named = named; old = old })
          | discovers _ _ _ q ↦ inl (subst (λ h. h.cycles_detected ≡ true) q k)
        ]
      ]

  pub take_rows-keeps_cycle :
      (rows : List Row) (hop : Hop)
      → hop.cycles_detected ≡ true
      → (take_rows visited edge rows hop).cycles_detected ≡ true
  unfolding take_rows
  take_rows-keeps_cycle [] hop h = h
  take_rows-keeps_cycle (row ∷ rows) hop h =
      take_rows-keeps_cycle rows (take_row visited edge row row.fqn hop) (elim (row_cases row hop) [
        | nameless _ q ↦ ap (λ h. h.cycles_detected) q ∙ h
        | revisits _ _ _ q ↦ ap (λ h. h.cycles_detected) q
        | discovers _ _ _ q ↦ ap (λ h. h.cycles_detected) q ∙ h
      ])

  take_row-cycle :
      (row : Row) (hop : Hop) (a : String)
      → row.fqn ≡ some a
      → contains visited a ≡ true
      → (take_row visited edge row row.fqn hop).cycles_detected ≡ true
  take_row-cycle row hop a e old =
      ap (λ h. h.cycles_detected) (ap (λ fqn. take_row visited edge row fqn hop) e) ∙ rw old

  pub take_rows-finds_cycle :
      (rows : List Row) (hop : Hop) (row : Row) (a : String)
      → In row rows
      → row.fqn ≡ some a
      → contains visited a ≡ true
      → (take_rows visited edge rows hop).cycles_detected ≡ true
  unfolding take_rows
  take_rows-finds_cycle [] hop row a m e old = elim m [ ]
  take_rows-finds_cycle (r ∷ rows) hop row a (inr m) e old =
      take_rows-finds_cycle rows (take_row visited edge r r.fqn hop) row a m e old
  take_rows-finds_cycle (r ∷ rows) hop row a (inl q) e old =
      take_rows-keeps_cycle rows (take_row visited edge r r.fqn hop) (
        subst (λ r. (take_row visited edge r r.fqn hop).cycles_detected ≡ true) q
          (take_row-cycle row hop a e old))
