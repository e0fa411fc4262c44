-- ===== src/Jobs.antt =====
-- services/control-api/src/jobs/mod.rs: the reconciler of ingestion runs that are stuck in the queue. The
-- table `control.ingestion_runs` is the list of its rows, a UUID is its text, a time is in milliseconds.
pub mod Rows
pub mod Once
use rustacean.Common.{
  ℕ, zero, suc, ◌+◌, ◌-◌, ◌*◌, String, Bool, true, false, not, ◌&&◌, Option, none, some, List, [],
  ◌∷◌, ◌++◌, take, ltb, leb, if◌then◌else◌,
}
use text.Mathlib.Text.{◌==◌}

pub data Status : Type 0 where
  queued running succeeded failed : Status

pub record Run : Type 0 where
  pub id : String
  pub tenant_id : String
  pub repo_id : String
  pub commit_sha : Option String
  pub status : Status
  pub created_at : ℕ
  pub started_at : Option ℕ
  pub finished_at : Option ℕ
  pub error : Option String

pub record OrphanedRun : Type 0 where
  pub id : String
  pub tenant_id : String
  pub repo_id : String
  pub commit_sha : Option String

abbrev pub is_queued : Status → Bool
is_queued queued = true
is_queued running = false
is_queued succeeded = false
is_queued failed = false

abbrev pub is_null : Option ℕ → Bool
is_null none = true
is_null (some t) = false

abbrev pub two_minutes : ℕ
two_minutes = 120000

-- `WHERE status = 'queued' AND started_at IS NULL AND created_at < now() - interval '2 minutes'`
abbrev pub is_orphaned : ℕ → Run → Bool
is_orphaned now run =
    is_queued run.status && (is_null run.started_at && ltb (run.created_at + two_minutes) now)

-- `ORDER BY created_at ASC`
abbrev pub insert_run : Run → List Run → List Run
insert_run run [] = run ∷ []
insert_run run (other ∷ runs) =
    let rest = insert_run run runs in
    if leb run.created_at other.created_at then run ∷ other ∷ runs else other ∷ rest

abbrev pub select_orphaned : ℕ → List Run → List Run
select_orphaned now [] = []
select_orphaned now (run ∷ runs) =
    let rest = select_orphaned now runs in if is_orphaned now run then insert_run run rest else rest

abbrev pub orphans : List Run → List OrphanedRun
orphans [] = []
orphans (run ∷ runs) =
    record {
      id = run.id;
      tenant_id = run.tenant_id;
      repo_id = run.repo_id;
      commit_sha = run.commit_sha;
    }
    ∷ orphans runs

-- The rows of the query, at most a hundred.
unfoldable pub fetch_orphaned_runs : ℕ → List Run → List OrphanedRun
fetch_orphaned_runs now table = orphans (take 100 (select_orphaned now table))

-- `WHERE id = $1 AND status = 'queued' AND started_at IS NULL`
abbrev pub is_claimable : String → Run → Bool
is_claimable id run = run.id == id && (is_queued run.status && is_null run.started_at)

-- The update, and whether it changed a row.
unfoldable pub try_claim_run : ℕ → String → List Run → Bool × List Run
try_claim_run now id [] = (false, [])
try_claim_run now id (run ∷ table) =
    let (won, rest) = try_claim_run now id table in
    if is_claimable id run
    then (true, record run { started_at = some now } ∷ rest)
    else (won, run ∷ rest)

-- `WHERE id = $1 AND status = 'queued'`
unfoldable pub mark_failed : ℕ → String → String → List Run → List Run
mark_failed now id message [] = []
mark_failed now id message (run ∷ table) =
    let rest = mark_failed now id message table in
    if run.id == id && is_queued run.status
    then record run { status = failed; finished_at = some now; error = some message } ∷ rest
    else run ∷ rest

pub record IngestRequest : Type 0 where
  pub tenant_id : String
  pub event_id : String
  pub source : String
  pub created_at_ms : ℕ
  pub repo_id : String
  pub ingest_run_id : String
  pub commit_sha : String
  pub branch : String

-- What the Kafka producer answers: there is none, the broker is not ready, it refuses or it takes the
-- request.
pub data Producer : Type 0 where
  missing unreachable refusing accepting : Producer

abbrev or_empty : Option String → String
or_empty none = ""
or_empty (some s) = s

abbrev pub ingest_request : ℕ → String → OrphanedRun → IngestRequest
ingest_request now event_id run = record {
  tenant_id = run.tenant_id;
  event_id = event_id;
  source = "reconciler";
  created_at_ms = now;
  repo_id = run.repo_id;
  ingest_run_id = run.id;
  commit_sha = or_empty run.commit_sha;
  branch = "";
}

-- What follows the claim: the request that is published, or the error that the run is marked with.
pub data Dispatch : Type 0 where
  published : IngestRequest → Dispatch
  rejected : String → Dispatch

unfoldable pub dispatch : Producer → ℕ → String → OrphanedRun → Dispatch
dispatch unreachable now event_id run =
    rejected "reconciler: Kafka broker unreachable on recovery; re-trigger to start ingestion"
dispatch accepting now event_id run = published (ingest_request now event_id run)
dispatch refusing now event_id run =
    rejected "reconciler: Kafka publish failed during recovery; re-trigger to start ingestion"
dispatch missing now event_id run =
    rejected
      "reconciler: control-api restarted with no Kafka producer before message was published; re-trigger to start ingestion"

abbrev pub finish : ℕ → String → Dispatch → List Run → List Run × List IngestRequest
finish now id (published request) table = (table, request ∷ [])
finish now id (rejected message) table = (mark_failed now id message table, [])

-- A run, in a pass that no other instance and no failing query disturbs.
unfoldable pub handle_orphaned_run :
    Producer → ℕ → String → OrphanedRun → List Run → List Run × List IngestRequest
unfolding try_claim_run dispatch mark_failed
handle_orphaned_run producer now event_id run table =
    let (won, claimed) = try_claim_run now run.id table in
    if won then finish now run.id (dispatch producer now event_id run) claimed else (claimed, [])

abbrev handle_all :
    (String → Producer)
    → ℕ
    → (String → String)
    → List OrphanedRun
    → List Run
    → List Run × List IngestRequest
handle_all producer now event_id [] table = (table, [])
handle_all producer now event_id (run ∷ runs) table =
    let (next, requests) = handle_orphaned_run (producer run.id) now (event_id run.id) run table in
    let (last, more) = handle_all producer now event_id runs next in (last, requests ++ more)

-- One pass. The producer's answers and the new event ids are those for each run.
unfoldable pub reconcile_orphaned_ingest_runs :
    (String → Producer) → ℕ → (String → String) → List Run → List Run × List IngestRequest
unfolding handle_orphaned_run fetch_orphaned_runs
reconcile_orphaned_ingest_runs producer now event_id table =
    handle_all producer now event_id (fetch_orphaned_runs now table) table
