-- ===== src/Jobs/Rows.antt =====
-- services/control-api/src/jobs/mod.rs: what the queries leave of the table.
use rustacean.Common.{
  ℕ, zero, suc, String, ◌≡◌, refl, ap, ◌∙◌, inl, inr, Bool, true, false, ◌&&◌, ◌||◌, List, [], ◌∷◌,
  any, take, leb, arith, Bool-cases, ||-false,
}
use rustacean.Jobs.{
  Run, OrphanedRun, is_queued, is_claimable, try_claim_run, mark_failed, Dispatch, published,
  rejected, finish, fetch_orphaned_runs, select_orphaned, insert_run, is_orphaned, orphans,
}
use text.Mathlib.Text.{◌==◌}

abbrev pub has_row : String → List Run → Bool
has_row id table = any (λ (run : Run). run.id == id) table

-- The run has a row, and none that could be claimed.
abbrev pub Taken : String → List Run → Type 0
Taken id table = (has_row id table ≡ true) × (any (is_claimable id) table ≡ false)

module _ (now : ℕ) (id : String) where
  -- A claim is won where there is something to claim.
  pub won_claimable :
      (table : List Run) → (try_claim_run now id table).0 ≡ any (is_claimable id) table
  unfolding try_claim_run
  won_claimable [] = refl
  won_claimable (run ∷ table) = elim (Bool-cases (is_claimable id run)) [
    | inl e ↦ rw e refl
    | inr e ↦ rw e (won_claimable table)
  ]

  pub claim-has_row :
      (j : String) (table : List Run) → has_row j (try_claim_run now id table).1 ≡ has_row j table
  unfolding try_claim_run
  claim-has_row j [] = refl
  claim-has_row j (run ∷ table) = elim (Bool-cases (is_claimable id run)) [
    | inl e ↦ rw e (ap (λ b. (run.id == j) || b) (claim-has_row j table))
    | inr e ↦ rw e (ap (λ b. (run.id == j) || b) (claim-has_row j table))
  ]

  -- What was claimed cannot be claimed again.
  pub claimed : (table : List Run) → any (is_claimable id) (try_claim_run now id table).1 ≡ false
  unfolding try_claim_run
  claimed [] = refl
  claimed (run ∷ table) = elim (Bool-cases (is_claimable id run)) [
    | inl e ↦ rw e (ground (arith, claimed table))
    | inr e ↦ rw e (ground (arith, e, claimed table))
  ]

  claim-keeps :
      (j : String) (table : List Run)
      → any (is_claimable j) table ≡ false
      → any (is_claimable j) (try_claim_run now id table).1 ≡ false
  unfolding try_claim_run
  claim-keeps j [] h = refl
  claim-keeps j (run ∷ table) h =
      let (p, q) = ||-false (is_claimable j run) (any (is_claimable j) table) h in
      let r = claim-keeps j table q in
      elim (Bool-cases (is_claimable id run)) [
        | inl e ↦ rw e (ground (arith, r))
        | inr e ↦ rw e (ground (arith, p, r))
      ]

module _ (now : ℕ) (id message : String) where
  failed-has_row :
      (j : String) (table : List Run)
      → has_row j (mark_failed now id message table) ≡ has_row j table
  unfolding mark_failed
  failed-has_row j [] = refl
  failed-has_row j (run ∷ table) = elim (Bool-cases (run.id == id && is_queued run.status)) [
    | inl e ↦ rw e (ap (λ b. (run.id == j) || b) (failed-has_row j table))
    | inr e ↦ rw e (ap (λ b. (run.id == j) || b) (failed-has_row j table))
  ]

  failed-keeps :
      (j : String) (table : List Run)
      → any (is_claimable j) table ≡ false
      → any (is_claimable j) (mark_failed now id message table) ≡ false
  unfolding mark_failed
  failed-keeps j [] h = refl
  failed-keeps j (run ∷ table) h =
      let (p, q) = ||-false (is_claimable j run) (any (is_claimable j) table) h in
      let r = failed-keeps j table q in
      elim (Bool-cases (run.id == id && is_queued run.status)) [
        | inl e ↦ rw e (ground (arith, r))
        | inr e ↦ rw e (ground (arith, p, r))
      ]

pub Taken-claim :
    (now : ℕ) (c id : String) (table : List Run)
    → Taken id table
    → Taken id (try_claim_run now c table).1
Taken-claim now c id table (row, none_left) =
    (claim-has_row now c id table ∙ row, claim-keeps now c id table none_left)

pub Taken-finish :
    (now : ℕ) (c id : String) (d : Dispatch) (table : List Run)
    → Taken id table
    → Taken id (finish now c d table).0
Taken-finish now c id (published r) table t = t
Taken-finish now c id (rejected message) table (row, none_left) =
    (failed-has_row now c message id table ∙ row, failed-keeps now c message id table none_left)

pub claimable-has_row :
    (id : String) (table : List Run) → any (is_claimable id) table ≡ true → has_row id table ≡ true
claimable-has_row id [] h = cc
claimable-has_row id (run ∷ table) h = elim (Bool-cases (any (is_claimable id) table)) [
  | inl e ↦ let r = claimable-has_row id table e in ground (arith, r)
  | inr e ↦ ground (arith, e, h)
]

-- Some orphan of a pass is the run.
abbrev pub fetched : String → List OrphanedRun → Bool
fetched id = any (λ (run : OrphanedRun). run.id == id)

insert_run-has_row :
    (id : String) (run : Run) (runs : List Run)
    → has_row id (insert_run run runs) ≡ ((run.id == id) || has_row id runs)
insert_run-has_row id run [] = refl
insert_run-has_row id run (other ∷ runs) = elim (Bool-cases (leb run.created_at other.created_at)) [
  | inl e ↦ rw e refl
  | inr e ↦ rw e (let r = insert_run-has_row id run runs in ground (arith, r))
]

-- What cannot be claimed is not selected.
select_orphaned-has_row :
    (now : ℕ) (id : String) (table : List Run)
    → any (is_claimable id) table ≡ false
    → has_row id (select_orphaned now table) ≡ false
select_orphaned-has_row now id [] h = refl
select_orphaned-has_row now id (run ∷ table) h =
    let (p, q) = ||-false (is_claimable id run) (any (is_claimable id) table) h in
    let r = select_orphaned-has_row now id table q in
    elim (Bool-cases (is_orphaned now run)) [
      | inr e ↦ rw e r
      | inl e ↦
          rw e (insert_run-has_row id run (select_orphaned now table) ∙ ground (arith, e, p, r))
    ]

orphans-fetched :
    (n : ℕ) (id : String) (runs : List Run)
    → has_row id runs ≡ false
    → fetched id (orphans (take n runs)) ≡ false
orphans-fetched zero id runs h = refl
orphans-fetched (suc n) id [] h = refl
orphans-fetched (suc n) id (run ∷ runs) h =
    let (p, q) = ||-false (run.id == id) (has_row id runs) h in
    let r = orphans-fetched n id runs q in ground (arith, p, r)

pub fetch_orphaned_runs-fetched :
    (now : ℕ) (id : String) (table : List Run)
    → any (is_claimable id) table ≡ false
    → fetched id (fetch_orphaned_runs now table) ≡ false
unfolding fetch_orphaned_runs
fetch_orphaned_runs-fetched now id table h =
    orphans-fetched 100 id (select_orphaned now table) (select_orphaned-has_row now id table h)
