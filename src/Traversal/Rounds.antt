-- ===== src/Traversal/Rounds.antt =====
-- crates/rb-query/src/graph/traversal/bfs.rs: a hop finds what lies next to the frontier and is new.
use rustacean.Common.{
  ℕ, String, ◌≡◌, sym, ◌∙◌, subst, ◌⊎◌, inl, inr, true, false, some, List, [], ◌∷◌,
}
use rustacean.Common.Every.{In}
use rustacean.Common.Names.{contains}
use rustacean.Traversal.Types.{RawEdge, Row, ok}
use rustacean.Traversal.Hop.{Hop, by_dispatch, by_instantiation, one_hop}
use rustacean.Traversal.Hops.{
  take_rows_sound, take_rows-keeps, take_rows-finds, take_rows-keeps_cycle, take_rows-finds_cycle,
}
use rustacean.Traversal.Direction.{
  Direction, Lists, Adj, Found, Found-row, Found-later, hop_of, hop_name, one_hop-next,
}

module _ (d : Direction) (depth : ℕ) (visited : List String) where
  hop_name_sound :
      (b : String) (frontier : List String) (rows inst_rows : List Row) (hop : Hop) (e : RawEdge)
      → d.by_calls b ≡ ok rows
      → d.by_inst b ≡ ok inst_rows
      → In e (hop_name d depth visited b rows inst_rows hop).edges
      → In e hop.edges ⊎ Found d depth visited (b ∷ frontier) e
  hop_name_sound b frontier rows inst_rows hop e p q m =
      elim (take_rows_sound visited (d.edge depth b by_instantiation) inst_rows _ e m) [
        | inr f ↦ inr (
            Found-row d depth visited b frontier by_instantiation inst_rows e
              (λ a l. inr (subst (λ r. Lists r a) (sym q) l)) f)
        | inl k ↦ elim (take_rows_sound visited (d.edge depth b by_dispatch) rows hop e k) [
          | inr f ↦ inr (
              Found-row d depth visited b frontier by_dispatch rows e
                (λ a l. inl (subst (λ r. Lists r a) (sym p) l)) f)
          | inl old ↦ inl old
        ]
      ]

  pub hop_sound :
      (frontier : List String) (hop hop' : Hop) (e : RawEdge)
      → hop_of d depth visited frontier hop ≡ ok hop'
      → In e hop'.edges
      → In e hop.edges ⊎ Found d depth visited frontier e
  unfolding one_hop
  hop_sound [] hop hop' e h m = inl (subst (In e) (sym (ok_edges h)) m)
    where
      ok_edges : {a b : Hop} → ok a ≡ ok b → a.edges ≡ b.edges
      ok_edges q = cc
  hop_sound (b ∷ frontier) hop hop' e h m =
      let (rows, inst_rows, p, q, next) = one_hop-next d depth visited b frontier hop hop' h in
      elim (hop_sound frontier _ hop' e next m) [
        | inr f ↦ inr (Found-later d f)
        | inl k ↦ hop_name_sound b frontier rows inst_rows hop e p q k
      ]

  hop-keeps :
      (frontier : List String) (hop hop' : Hop) (e : RawEdge)
      → hop_of d depth visited frontier hop ≡ ok hop'
      → In e hop.edges
      → In e hop'.edges
  unfolding one_hop
  hop-keeps [] hop hop' e h m = subst (In e) (ok_edges h) m
    where
      ok_edges : {a b : Hop} → ok a ≡ ok b → a.edges ≡ b.edges
      ok_edges q = cc
  hop-keeps (b ∷ frontier) hop hop' e h m =
      let (rows, inst_rows, p, q, next) = one_hop-next d depth visited b frontier hop hop' h in
      hop-keeps frontier _ hop' e next
        (take_rows-keeps visited _ inst_rows _ e (take_rows-keeps visited _ rows hop e m))

  Adj-rows :
      {a b : String} {rows inst_rows : List Row}
      → d.by_calls b ≡ ok rows
      → d.by_inst b ≡ ok inst_rows
      → Adj d a b
      → ((row : Row) × In row rows × (row.fqn ≡ some a))
        ⊎ ((row : Row) × In row inst_rows × (row.fqn ≡ some a))
  Adj-rows {a} p q (inl l) = inl (subst (λ r. Lists r a) p l)
  Adj-rows {a} p q (inr l) = inr (subst (λ r. Lists r a) q l)

  -- Every new neighbour of the frontier gets an edge.
  pub hop-finds :
      (frontier : List String) (hop hop' : Hop) (a b : String)
      → hop_of d depth visited frontier hop ≡ ok hop'
      → In b frontier
      → Adj d a b
      → contains visited a ≡ false
      → (e : RawEdge) × In e hop'.edges × (d.found e ≡ a) × (d.base e ≡ b)
  unfolding one_hop
  hop-finds [] hop hop' a b h m adj new = elim m [ ]
  hop-finds (c ∷ frontier) hop hop' a b h (inr m) adj new =
      let (rows, inst_rows, p, q, next) = one_hop-next d depth visited c frontier hop hop' h in
      hop-finds frontier _ hop' a b next m adj new
  hop-finds (c ∷ frontier) hop hop' a b h (inl e) adj new =
      let (rows, inst_rows, p, q, next) = one_hop-next d depth visited c frontier hop hop' h in
      elim (Adj-rows p q (subst (Adj d a) e adj)) [
        | inl (row, m, named) ↦ (
          d.edge depth c by_dispatch a row,
          hop-keeps frontier _ hop' _ next (
              take_rows-keeps visited _ inst_rows _ _
                (take_rows-finds visited (d.edge depth c by_dispatch) rows hop row a m named new)),
          d.found-edge depth c by_dispatch a row,
          d.base-edge depth c by_dispatch a row ∙ sym e,
        )
        | inr (row, m, named) ↦ (
          d.edge depth c by_instantiation a row,
          hop-keeps frontier _ hop' _ next (
              take_rows-finds visited (d.edge depth c by_instantiation) inst_rows _ row a m named
                new),
          d.found-edge depth c by_instantiation a row,
          d.base-edge depth c by_instantiation a row ∙ sym e,
        )
      ]

  pub hop-keeps_cycle :
      (frontier : List String) (hop hop' : Hop)
      → hop_of d depth visited frontier hop ≡ ok hop'
      → hop.cycles_detected ≡ true
      → hop'.cycles_detected ≡ true
  unfolding one_hop
  hop-keeps_cycle [] hop hop' h c = subst (λ t. t ≡ true) (ok_cycles h) c
    where
      ok_cycles : {a b : Hop} → ok a ≡ ok b → a.cycles_detected ≡ b.cycles_detected
      ok_cycles q = cc
  hop-keeps_cycle (b ∷ frontier) hop hop' h c =
      let (rows, inst_rows, p, q, next) = one_hop-next d depth visited b frontier hop hop' h in
      hop-keeps_cycle frontier _ hop' next
        (take_rows-keeps_cycle visited _ inst_rows _ (take_rows-keeps_cycle visited _ rows hop c))

  -- A neighbour of the frontier that is visited already sets the flag, whatever way it was reached.
  pub hop-cycle :
      (frontier : List String) (hop hop' : Hop) (a b : String)
      → hop_of d depth visited frontier hop ≡ ok hop'
      → In b frontier
      → Adj d a b
      → contains visited a ≡ true
      → hop'.cycles_detected ≡ true
  unfolding one_hop
  hop-cycle [] hop hop' a b h m adj old = elim m [ ]
  hop-cycle (c ∷ frontier) hop hop' a b h (inr m) adj old =
      let (rows, inst_rows, p, q, next) = one_hop-next d depth visited c frontier hop hop' h in
      hop-cycle frontier _ hop' a b next m adj old
  hop-cycle (c ∷ frontier) hop hop' a b h (inl e) adj old =
      let (rows, inst_rows, p, q, next) = one_hop-next d depth visited c frontier hop hop' h in
      hop-keeps_cycle frontier _ hop' next (elim (Adj-rows p q (subst (Adj d a) e adj)) [
        | inl (row, m, named) ↦
            take_rows-keeps_cycle visited _ inst_rows _ (
              take_rows-finds_cycle visited (d.edge depth c by_dispatch) rows hop row a m named old)
        | inr (row, m, named) ↦
            take_rows-finds_cycle visited (d.edge depth c by_instantiation) inst_rows _ row a m
              named old
      ])
