-- ===== src/Tests/Reconciles.antt =====
-- services/control-api/src/jobs/mod.rs: one run in the queue, and two instances that want it.
use rustacean.Common.{◌+◌, ◌≡◌, refl, ◌⊎◌, false, none, some, [], ◌∷◌}
use rustacean.Jobs.{
  queued, Run, OrphanedRun, fetch_orphaned_runs, try_claim_run, mark_failed, accepting,
  ingest_request, dispatch, handle_orphaned_run, reconcile_orphaned_ingest_runs,
}
use rustacean.Jobs.Rows.{Taken, fetched}
use rustacean.Jobs.Once.{
  World, claiming, dispatching, Reachable, initially, then_by, claims_of, requests_for,
  Reachable-Taken,
}

abbrev stuck : Run
stuck = record {
  id = "r";
  tenant_id = "t";
  repo_id = "p";
  commit_sha = some "c";
  status = queued;
  created_at = 0;
  started_at = none;
  finished_at = none;
  error = none;
}

abbrev orphan : OrphanedRun
orphan = record { id = "r"; tenant_id = "t"; repo_id = "p"; commit_sha = some "c" }

reconciled_now :
    reconcile_orphaned_ingest_runs (λ id. accepting) 300000 (λ id. "e") (stuck ∷ [])
    ≡ (record stuck { started_at = some 300000 } ∷ [], ingest_request 300000 "e" orphan ∷ [])
unfolding fetch_orphaned_runs try_claim_run mark_failed dispatch handle_orphaned_run
    reconcile_orphaned_ingest_runs
reconciled_now = refl

-- Both have fetched it; the first claims it and publishes, the second does not get it.
abbrev last : World
last = record {
  table = record stuck { started_at = some 1 } ∷ [];
  claims = [];
  requests = ingest_request 3 "e" orphan ∷ [];
}

reached : Reachable (stuck ∷ []) last
unfolding try_claim_run dispatch
reached =
    then_by (then_by (then_by initially (claiming 1 "r")) (claiming 2 "r"))
      (dispatching [] [] orphan accepting 3 "e" refl)

Reachable-Taken_example :
    (claims_of "r" [] + requests_for "r" (ingest_request 3 "e" orphan ∷ []) ≡ 0)
    ⊎ ((claims_of "r" [] + requests_for "r" (ingest_request 3 "e" orphan ∷ []) ≡ 1)
        × Taken "r" (record stuck { started_at = some 1 } ∷ [])
        × (fetched "r" (fetch_orphaned_runs 900000 (record stuck { started_at = some 1 } ∷ []))
            ≡ false))
Reachable-Taken_example = Reachable-Taken "r" 900000 reached
