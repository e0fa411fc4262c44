-- ===== src/Jobs/Once.antt =====
-- services/control-api/src/jobs/mod.rs: several instances of control-api reconcile at the same time.
use rustacean.Common.{
  ℕ, zero, suc, ◌+◌, ◌≤◌, String, ◌≡◌, refl, sym, ap, ◌∙◌, subst, ◌⊎◌, inl, inr, Bool, true, false,
  List, [], ◌∷◌, ◌++◌, any, arith, Bool-cases, true_not_false, if◌then◌else◌,
}
use rustacean.Jobs.{
  Run, OrphanedRun, is_claimable, try_claim_run, IngestRequest, Producer, dispatch, finish,
  fetch_orphaned_runs,
}
use text.Mathlib.Text.{◌==◌}
use text.Mathlib.TextEquality.{eq_iff}
use rustacean.Jobs.Rows.{
  has_row, Taken, won_claimable, claim-has_row, claimed, Taken-claim, Taken-finish,
  claimable-has_row, fetched, fetch_orphaned_runs-fetched,
}

-- The table, the claims that are won and not yet dispatched, and the requests that were published.
pub record World : Type 0 where
  pub table : List Run
  pub claims : List String
  pub requests : List IngestRequest

-- One query of one instance, an instance that stops with a claim, or any change of the table by others
-- that gives no claimed run back: they do not empty `started_at`.
pub data Step (w : World) : World → Type 0 where
  claiming :
      (now : ℕ) (id : String)
      → Step w (record w {
        table = (try_claim_run now id w.table).1;
        claims = if (try_claim_run now id w.table).0 then id ∷ w.claims else w.claims;
      })
  dispatching :
      (before after : List String) (run : OrphanedRun) (producer : Producer) (now : ℕ)
      (event_id : String)
      → w.claims ≡ before ++ (run.id ∷ after)
      → Step w (record {
        table = (finish now run.id (dispatch producer now event_id run) w.table).0;
        claims = before ++ after;
        requests = w.requests ++ (finish now run.id (dispatch producer now event_id run) w.table).1;
      })
  crashing :
      (before after : List String) (id : String)
      → w.claims ≡ before ++ (id ∷ after)
      → Step w (record w { claims = before ++ after })
  working :
      (table : List Run)
      → ((id : String) → Taken id w.table → Taken id table)
      → Step w (record w { table = table })

pub data Reachable (table : List Run) : World → Type 0 where
  initially : Reachable table (record { table = table; claims = []; requests = [] })
  then_by : {v w : World} → Reachable table v → Step v w → Reachable table w

-- The claims on a run, and the requests for it.
abbrev pub claims_of : String → List String → ℕ
claims_of id [] = 0
claims_of id (c ∷ cs) = (if c == id then 1 else 0) + claims_of id cs

abbrev pub requests_for : String → List IngestRequest → ℕ
requests_for id [] = 0
requests_for id (r ∷ rs) = (if r.ingest_run_id == id then 1 else 0) + requests_for id rs

claims_of-append :
    (id : String) (cs ds : List String)
    → claims_of id (cs ++ ds) ≡ claims_of id cs + claims_of id ds
claims_of-append id [] ds = omega arith
claims_of-append id (c ∷ cs) ds = omega (arith, claims_of-append id cs ds)

requests_for-append :
    (id : String) (rs ss : List IngestRequest)
    → requests_for id (rs ++ ss) ≡ requests_for id rs + requests_for id ss
requests_for-append id [] ss = omega arith
requests_for-append id (r ∷ rs) ss = omega (arith, requests_for-append id rs ss)

-- A run is claimed or requested at most once, and is then taken.
Once : ℕ → String → List Run → Type 0
Once n id table = (n ≡ 0) ⊎ ((n ≡ 1) × Taken id table)

Once-fewer :
    (n n' : ℕ) (id : String) (table table' : List Run)
    → n' ≤ n
    → (Taken id table → Taken id table')
    → Once n id table
    → Once n' id table'
unfolding Once
Once-fewer zero zero id table table' h t o = inl refl
Once-fewer zero (suc n') id table table' h t o = absurd (omega arith)
Once-fewer (suc n) zero id table table' h t o = inl refl
Once-fewer (suc n) (suc n') id table table' h t (inl e) = absurd (omega arith)
Once-fewer (suc n) (suc n') id table table' h t (inr (e, k)) = inr (omega arith, t k)

-- The request that is published is one for the run.
dispatch-requests :
    (id : String) (run : OrphanedRun) (producer : Producer) (now : ℕ) (event_id : String)
    (table : List Run)
    → requests_for id (finish now run.id (dispatch producer now event_id run) table).1
      ≤ claims_of id (run.id ∷ [])
unfolding dispatch
dispatch-requests id run Producer.missing now event_id table = omega arith
dispatch-requests id run Producer.unreachable now event_id table = omega arith
dispatch-requests id run Producer.refusing now event_id table = omega arith
dispatch-requests id run Producer.accepting now event_id table = omega arith

total : String → World → ℕ
total id w = claims_of id w.claims + requests_for id w.requests

claiming-Once :
    (w : World) (now : ℕ) (c id : String)
    → Once (total id w) id w.table
    → Once
        (claims_of id (if (try_claim_run now c w.table).0 then c ∷ w.claims else w.claims)
          + requests_for id w.requests)
        id
        (try_claim_run now c w.table).1
unfolding total Once
claiming-Once w now c id o = go (try_claim_run now c w.table).0 (won_claimable now c w.table)
  where
    same : Once (total id w) id (try_claim_run now c w.table).1
    same =
        Once-fewer (total id w) (total id w) id w.table (try_claim_run now c w.table).1
          (omega arith) (Taken-claim now c id w.table) o

    nobody : (claim : any (is_claimable c) w.table ≡ true) → c ≡ id → total id w ≡ 0
    nobody claim e = elim o [
      | inl z ↦ z
      | inr (_, (_, n)) ↦
          absurd (true_not_false (ap (λ c. any (is_claimable c) w.table) (sym e) ∙ claim) n)
    ]

    go :
        (won : Bool)
        → won ≡ any (is_claimable c) w.table
        → Once
            (claims_of id (if won then c ∷ w.claims else w.claims) + requests_for id w.requests)
            id
            (try_claim_run now c w.table).1
    go false e = same
    go true e = elim (Bool-cases (c == id)) [
      | inr f ↦ rw f (
          Once-fewer (total id w) (0 + claims_of id w.claims + requests_for id w.requests) id
            w.table (try_claim_run now c w.table).1 (omega arith) (Taken-claim now c id w.table) o)
      | inl f ↦
          let q = (eq_iff c id).0 f in
          let z = nobody (sym e) q in
          let row =
            claim-has_row now c id w.table
            ∙ ap (λ c. has_row c w.table) (sym q)
            ∙ claimable-has_row c w.table (sym e) in
          let left =
            subst (λ id. any (is_claimable id) (try_claim_run now c w.table).1 ≡ false) q
              (claimed now c w.table) in
          rw f (inr (omega arith, (row, left)))
    ]

Step-Once :
    {v w : World} (id : String)
    → Step v w
    → Once (total id v) id v.table
    → Once (total id w) id w.table
unfolding total
Step-Once {v} id (claiming now c) o = claiming-Once v now c id o
Step-Once {v} id (dispatching before after run producer now event_id e) o =
    let claims = ap (claims_of id) e ∙ claims_of-append id before (run.id ∷ after) in
    let joined = claims_of-append id before after in
    let split = claims_of-append id (run.id ∷ []) after in
    let d = dispatch producer now event_id run in
    let requests = requests_for-append id v.requests (finish now run.id d v.table).1 in
    let one = dispatch-requests id run producer now event_id v.table in
    Once-fewer _ _ id v.table (finish now run.id d v.table).0 (omega arith)
      (Taken-finish now run.id id d v.table) o
Step-Once {v} id (crashing before after c e) o =
    let claims = ap (claims_of id) e ∙ claims_of-append id before (c ∷ after) in
    let joined = claims_of-append id before after in
    Once-fewer _ _ id v.table v.table (omega arith) (λ t. t) o
Step-Once {v} id (working table keep) o = Once-fewer _ _ id v.table table (omega arith) (keep id) o

Reachable-Once :
    {table : List Run} {w : World} (id : String) → Reachable table w → Once (total id w) id w.table
unfolding total Once
Reachable-Once id initially = inl refl
Reachable-Once id (then_by r s) = Step-Once id s (Reachable-Once id r)

-- However the queries of any number of instances interleave, with instances that stop at any point and
-- other services that give no run back: for a run there is at most one claim or published request, and
-- when there is one, the run is in the table, cannot be claimed again and is in no later pass.
pub Reachable-Taken :
    {table : List Run} {w : World} (id : String) (now : ℕ)
    → Reachable table w
    → (claims_of id w.claims + requests_for id w.requests ≡ 0)
      ⊎ ((claims_of id w.claims + requests_for id w.requests ≡ 1)
          × Taken id w.table
          × (fetched id (fetch_orphaned_runs now w.table) ≡ false))
unfolding total Once
Reachable-Taken {table} {w} id now r = elim (Reachable-Once id r) [
  | inl z ↦ inl z
  | inr (e, t) ↦ inr (e, t, fetch_orphaned_runs-fetched now id w.table t.1)
]
