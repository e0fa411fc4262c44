-- ===== src/Traversal/Layers.antt =====
-- crates/rb-query/src/graph/traversal/mod.rs: the edges that the search collects, round by round.
use rustacean.Common.{
  ℕ, suc, ◌+◌, ◌≤◌, String, ◌≡◌, sym, ap, ◌∙◌, subst, inl, inr, false, List, [], ◌∷◌, ◌++◌, map,
  arith, Bool-cases, leb, leb→le,
}
use rustacean.Common.Every.{In, In-append, In-append_left, In-append_right, In-map, map-In}
use rustacean.Common.Names.{contains, contains→In, In→contains}
use rustacean.Traversal.Types.{RawEdge, ok}
use rustacean.Traversal.Hop.{Hop}
use rustacean.Traversal.Levels.{
  Walk, Distance, Level, Level-start, Level-next, Level-stop, Level-Distance,
}
use rustacean.Traversal.Direction.{Direction, Adj, hop_of}
use rustacean.Traversal.Rounds.{hop_sound, hop-finds}
use rustacean.Traversal.Reach.{push_all, found_names, hop-Round}

-- An edge, by the name it comes from in the search, the name it finds, and its depth.
pub record Link : Type 0 where
  pub base : String
  pub found : String
  pub depth : ℕ

abbrev pub link : Direction → RawEdge → Link
link d e = record { base = d.base e; found = d.found e; depth = e.depth }

abbrev pub links : Direction → List RawEdge → List Link
links d = map (link d)

module _ (d : Direction) (root : String) where
  -- The link goes from one layer of the search to the next: its base lies `m` steps from the root, and
  -- what it finds `m + 1` steps, which is its depth.
  pub record Crosses (l : Link) : Type 0 where
    pub adjacent : Adj d l.found l.base
    pub layer : ℕ
    pub depth : l.depth ≡ suc layer
    pub base_distance : Distance (Adj d) root layer l.base
    pub found_distance : Distance (Adj d) root (suc layer) l.found

  -- The links are those that cross from a layer to the next, up to a depth.
  pub record Layers (depth : ℕ) (ls : List Link) : Type 0 where
    pub crosses : (l : Link) → In l ls → Crosses l
    pub bounded : (l : Link) → In l ls → l.depth ≤ depth
    pub complete :
        (m : ℕ) (a b : String)
        → suc m ≤ depth
        → Distance (Adj d) root m b
        → Distance (Adj d) root (suc m) a
        → Adj d a b
        → In (record { base = b; found = a; depth = suc m }) ls

  -- What holds before the round after `depth`.
  pub record Reached (depth : ℕ) (frontier visited : List String) (ls : List Link) : Type 0 where
    pub level : Level (Adj d) root depth frontier visited
    pub front : (b : String) → In b frontier → Distance (Adj d) root depth b
    pub layers : Layers depth ls

  Distance-zero : Distance (Adj d) root 0 root
  Distance-zero = record { walk = Walk.here; shortest = λ m h w. absurd (omega arith) }

  pub Reached-start : Reached 0 (root ∷ []) (root ∷ []) []
  Reached-start = record {
    level = Level-start (Adj d) root;
    front = λ b m. elim m [
      | inl e ↦ subst (Distance (Adj d) root 0) (sym e) Distance-zero
      | inr k ↦ elim k [ ]
    ];
    layers = record {
      crosses = λ l m. elim m [ ];
      bounded = λ l m. elim m [ ];
      complete = λ m a b h x y adj. absurd (omega arith);
    };
  }

  -- A name whose distance is one more than the level's is not visited.
  unseen :
      {n : ℕ} {f v : List String} (a : String)
      → Level (Adj d) root n f v
      → Distance (Adj d) root (suc n) a
      → contains v a ≡ false
  unseen {n} {f} {v} a level x = elim (Bool-cases (contains v a)) [
    | inr e ↦ e
    | inl e ↦
        let (k, h, w) = level.sound a (contains→In v a e) in absurd (x.shortest k (omega arith) w)
  ]

  not-In : (v : List String) (a : String) → contains v a ≡ false → ¬ In a v
  not-In v a e m = let h = In→contains v a m in cc

  hop-Crosses :
      (depth : ℕ) (visited frontier : List String) (ls : List Link) (hop hop' : Hop) (e : RawEdge)
      → Reached depth frontier visited ls
      → hop.edges ≡ []
      → hop_of d (suc depth) visited frontier hop ≡ ok hop'
      → In e hop'.edges
      → Crosses (link d e) × (e.depth ≡ suc depth)
  hop-Crosses depth visited frontier ls hop hop' e r fresh h m =
      elim (hop_sound d (suc depth) visited frontier hop hop' e h m) [
        | inl old ↦ elim (subst (In e) fresh old) [ ]
        | inr f ↦ (
          record {
            adjacent = f.adjacent;
            layer = depth;
            depth = f.at_depth;
            base_distance = r.front (d.base e) f.on_frontier;
            found_distance =
                Level-Distance (Adj d) root (d.found e) (d.base e) r.level f.on_frontier f.adjacent
                  (not-In visited (d.found e) f.new);
          },
          f.at_depth,
        )
      ]

  Layers-next :
      (depth : ℕ) (visited frontier : List String) (ls : List Link) (hop hop' : Hop)
      → Reached depth frontier visited ls
      → hop.edges ≡ []
      → hop_of d (suc depth) visited frontier hop ≡ ok hop'
      → Layers (suc depth) (ls ++ links d hop'.edges)
  Layers-next depth visited frontier ls hop hop' r fresh h = record {
    crosses = λ l m. elim (In-append l ls new m) [
      | inl old ↦ r.layers.crosses l old
      | inr k ↦
          let (e, i, q) = In-map (link d) hop'.edges l k in
          subst Crosses (sym q) (hop-Crosses depth visited frontier ls hop hop' e r fresh h i).0
    ];
    bounded = λ l m. elim (In-append l ls new m) [
      | inl old ↦ let b = r.layers.bounded l old in omega arith
      | inr k ↦
          let (e, i, q) = In-map (link d) hop'.edges l k in
          let p = (hop-Crosses depth visited frontier ls hop hop' e r fresh h i).1 in
          let q' = ap (λ (l : Link). l.depth) q in omega arith
    ];
    complete = complete;
  }
    where
      new : List Link
      new = links d hop'.edges

      complete :
          (m : ℕ) (a b : String)
          → suc m ≤ suc depth
          → Distance (Adj d) root m b
          → Distance (Adj d) root (suc m) a
          → Adj d a b
          → In (record { base = b; found = a; depth = suc m }) (ls ++ new)
      complete m a b k x y adj = elim (Bool-cases (leb (suc m) depth)) [
        | inl e ↦ In-append_left _ ls new (r.layers.complete m a b (leb→le (suc m) depth e) x y adj)
        | inr e ↦ In-append_right _ ls new (last m a b (ground arith) x y adj)
      ]
        where
          last :
              (m : ℕ) (a b : String)
              → m ≡ depth
              → Distance (Adj d) root m b
              → Distance (Adj d) root (suc m) a
              → Adj d a b
              → In (record { base = b; found = a; depth = suc m }) new
          last m a b q x y adj =
              let x' = subst (λ m. Distance (Adj d) root m b) q x in
              let y' = subst (λ m. Distance (Adj d) root (suc m) a) q y in
              let (e, i, found, base) =
                hop-finds d (suc depth) visited frontier hop hop' a b h (r.level.layer b x') adj
                  (unseen a r.level y') in
              let at = (hop-Crosses depth visited frontier ls hop hop' e r fresh h i).1 in
              subst (λ l. In l new) (same e found base (at ∙ ap suc (sym q)))
                (map-In (link d) hop'.edges e i)
            where
              same :
                  (e : RawEdge)
                  → d.found e ≡ a
                  → d.base e ≡ b
                  → e.depth ≡ suc m
                  → link d e ≡ record { base = b; found = a; depth = suc m }
              same e f g h = cc

  -- A round takes the search to the next depth, whatever order it visits the new names in.
  pub Reached-next :
      (depth : ℕ) (visited frontier : List String) (ls : List Link) (hop hop' : Hop)
      → Reached depth frontier visited ls
      → hop.edges ≡ []
      → hop_of d (suc depth) visited frontier hop ≡ ok hop'
      → Reached
          (suc depth)
          (push_all (found_names d hop'.edges) (visited, [])).1
          (push_all (found_names d hop'.edges) (visited, [])).0
          (ls ++ links d hop'.edges)
  Reached-next depth visited frontier ls hop hop' r fresh h =
      let round = hop-Round d root (suc depth) visited frontier hop hop' fresh h in
      record {
        level = Level-next (Adj d) root r.level round;
        front = λ b m.
            let (_, new, (c, inside, adj)) = round.from_frontier b m in
            Level-Distance (Adj d) root b c r.level inside adj new;
        layers = Layers-next depth visited frontier ls hop hop' r fresh h;
      }

  -- With an empty frontier the links are those of every greater depth too.
  pub Reached-stop :
      (depth more : ℕ) (visited : List String) (ls : List Link)
      → Reached depth [] visited ls
      → Layers (depth + more) ls
  Reached-stop depth more visited ls r = record {
    crosses = r.layers.crosses;
    bounded = λ l m. let b = r.layers.bounded l m in omega arith;
    complete = λ m a b k x y adj. elim (Bool-cases (leb (suc m) depth)) [
      | inl e ↦ r.layers.complete m a b (leb→le (suc m) depth e) x y adj
      | inr e ↦
          let (n, h, w) = r.level.sound a (Level-stop (Adj d) root r.level (suc m) a y.walk) in
          absurd (y.shortest n (ground arith) w)
    ];
  }
