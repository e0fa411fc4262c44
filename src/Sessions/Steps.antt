-- ===== src/Sessions/Steps.antt =====
-- services/agent-runner/src/session: the interleavings.
use rustacean.Common.{String}
use rustacean.Sessions.{
  SessionManager, new_manager, start_session, count_start, abandon, commit, natural_exit,
  terminate_session, release_removed, drop_handle,
}

-- The control API gives each session id to one tenant.
pub data Step (owner : String → String) (m : SessionManager) : SessionManager → Type 0 where
  starts : (id : String) → Step owner m (start_session id (owner id) m)
  counts : (id : String) → Step owner m (count_start id m)
  fails : (id : String) → Step owner m (abandon id m)
  commits : (id : String) → Step owner m (commit id m)
  exits : (id : String) → Step owner m (natural_exit id (owner id) m)
  terminates : (id : String) → Step owner m (terminate_session id m)
  releases : (id : String) → Step owner m (release_removed id m)
  drops : Step owner m (drop_handle m)

pub data Reachable (owner : String → String) : SessionManager → Type 0 where
  initially : Reachable owner new_manager
  then_by : {m m' : SessionManager} → Reachable owner m → Step owner m m' → Reachable owner m'
