-- ===== src/Traversal/Levels.antt =====
-- crates/rb-query/src/graph/traversal: breadth-first search by rounds, over the names alone. A round
-- takes the frontier and the visited names to the next ones; it is described by what it visits.
use rustacean.Common.{
  ℕ, zero, suc, ◌≤◌, ◌<◌, String, ◌≡◌, refl, sym, subst, ◌⊎◌, inl, inr, List, [], ◌∷◌, arith,
}
use rustacean.Common.Every.{In}

-- `Adj a b`: the search goes from `b` to `a`.
module _ (Adj : String → String → Type 0) (root : String) where
  -- A walk of so many steps from the root.
  pub data Walk : ℕ → String → Type 0 where
    here : Walk zero root
    step : {n : ℕ} {a b : String} → Walk n b → Adj a b → Walk (suc n) a

  -- The shortest walk has so many steps.
  pub record Distance (n : ℕ) (a : String) : Type 0 where
    pub walk : Walk n a
    pub shortest : (m : ℕ) → m < n → ¬ Walk m a

  pub record Round (frontier visited frontier' visited' : List String) : Type 0 where
    pub covers : (a b : String) → In b frontier → Adj a b → In a visited'
    pub keeps : (a : String) → In a visited → In a visited'
    pub fresh : (a : String) → In a visited' → In a visited ⊎ In a frontier'
    pub from_frontier :
        (a : String)
        → In a frontier'
        → In a visited' × (¬ In a visited) × ((b : String) × In b frontier × Adj a b)

  -- The visited names are those within `d` steps, and what is not closed stands in the frontier.
  pub record Level (d : ℕ) (frontier visited : List String) : Type 0 where
    pub complete : (n : ℕ) (a : String) → n ≤ d → Walk n a → In a visited
    pub sound : (a : String) → In a visited → (n : ℕ) × (n ≤ d) × Walk n a
    pub front : (a : String) → In a frontier → Walk d a
    pub closed : (a b : String) → In b visited → Adj a b → In b frontier ⊎ In a visited
    pub layer : (a : String) → Distance d a → In a frontier

  Walk-zero : (n : ℕ) (a : String) → n ≤ 0 → Walk n a → a ≡ root
  Walk-zero zero a h here = refl
  Walk-zero (suc n) a h w = absurd (omega arith)

  pub Level-start : Level 0 (root ∷ []) (root ∷ [])
  Level-start = record {
    complete = λ n a h w. inl (Walk-zero n a h w);
    sound = λ a m. elim m [
      | inl e ↦ (0, omega arith, subst (Walk 0) (sym e) here)
      | inr m ↦ elim m [ ]
    ];
    front = λ a m. elim m [ inl e ↦ subst (Walk 0) (sym e) here | inr m ↦ elim m [ ] ];
    closed = λ a b m adj. inl m;
    layer = λ a x. inl (Walk-zero 0 a (omega arith) x.walk);
  }

  Level-complete :
      {d : ℕ} {f v f' v' : List String}
      → Level d f v
      → Round f v f' v'
      → (n : ℕ) (a : String) → n ≤ suc d
      → Walk n a
      → In a v'
  Level-complete l r zero a h w = r.keeps a (l.complete zero a (omega arith) w)
  Level-complete l r (suc n) a h (step {b = b} w adj) =
      elim (l.closed a b (l.complete n b (omega arith) w) adj) [
        | inl m ↦ r.covers a b m adj
        | inr m ↦ r.keeps a m
      ]

  -- A round takes the search from one level to the next.
  pub Level-next :
      {d : ℕ} {f v f' v' : List String} → Level d f v → Round f v f' v' → Level (suc d) f' v'
  Level-next {d} {f} {v} {f'} {v'} l r = record {
    complete = Level-complete l r;
    sound = λ a m. elim (r.fresh a m) [
      | inl old ↦ let (n, h, w) = l.sound a old in (n, omega arith, w)
      | inr new ↦ (suc d, omega arith, walk a new)
    ];
    front = walk;
    closed = λ a b m adj. elim (r.fresh b m) [
      | inl old ↦ elim (l.closed a b old adj) [
        | inl inside ↦ inr (r.covers a b inside adj)
        | inr known ↦ inr (r.keeps a known)
      ]
      | inr new ↦ inl new
    ];
    layer = λ a x. elim (r.fresh a (Level-complete l r (suc d) a (omega arith) x.walk)) [
      | inl old ↦ let (n, h, w) = l.sound a old in absurd (x.shortest n (omega arith) w)
      | inr new ↦ new
    ];
  }
    where
      walk : (a : String) → In a f' → Walk (suc d) a
      walk a m = let (_, _, (b, inside, adj)) = r.from_frontier a m in step (l.front b inside) adj

  -- With an empty frontier everything in reach is visited.
  pub Level-stop :
      {d : ℕ} {v : List String} → Level d [] v → (n : ℕ) (a : String) → Walk n a → In a v
  Level-stop l zero a w = l.complete zero a (omega arith) w
  Level-stop l (suc n) a (step {b = b} w adj) = elim (l.closed a b (Level-stop l n b w) adj) [
    | inl m ↦ elim m [ ]
    | inr m ↦ m
  ]

  -- What is next to the frontier and not visited lies one step further.
  pub Level-Distance :
      {d : ℕ} {f v : List String} (a b : String)
      → Level d f v
      → In b f
      → Adj a b
      → ¬ In a v
      → Distance (suc d) a
  Level-Distance a b l m adj new = record {
    walk = step (l.front b m) adj;
    shortest = λ n h w. new (l.complete n a (omega arith) w);
  }
