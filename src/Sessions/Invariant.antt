-- ===== src/Sessions/Invariant.antt =====
-- services/agent-runner/src/session: what holds in every interleaving.
pub mod Counts
pub mod Valid
pub mod Starting
pub mod Leaving
use rustacean.Common.{String}
use rustacean.Sessions.{SessionManager}
use rustacean.Sessions.Steps.{
  Step, starts, counts, fails, commits, exits, terminates, releases, drops, Reachable, initially,
  then_by,
}
use rustacean.Sessions.Invariant.Valid.{IsValid}
use rustacean.Sessions.Invariant.Starting.{
  IsValid-new, IsValid-starts, IsValid-counts, IsValid-fails, IsValid-commits,
}
use rustacean.Sessions.Invariant.Leaving.{
  IsValid-terminates, IsValid-exits, IsValid-releases, IsValid-drops,
}

module _ (owner : String → String) where
  IsValid-Step : {m m' : SessionManager} → IsValid owner m → Step owner m m' → IsValid owner m'
  IsValid-Step {m} v (starts id) = IsValid-starts owner id m v
  IsValid-Step {m} v (counts id) = IsValid-counts owner id m v
  IsValid-Step {m} v (fails id) = IsValid-fails owner id m v
  IsValid-Step {m} v (commits id) = IsValid-commits owner id m v
  IsValid-Step {m} v (exits id) = IsValid-exits owner id m v
  IsValid-Step {m} v (terminates id) = IsValid-terminates owner id m v
  IsValid-Step {m} v (releases id) = IsValid-releases owner id m v
  IsValid-Step {m} v drops = IsValid-drops owner m v

-- In every state that the session manager can reach by its starts, failures, commits, natural exits,
-- terminations and drops, whatever the order of the parts between their locks, each tenant's count is
-- the number of its starts, of its sessions, of its handles that were taken out and not yet
-- subtracted, and of its handles that a commit of the same id replaced. The count is at most 20, and
-- the permits that are left and those that are held add up to 200. The condition is that each session
-- id belongs to one tenant.
pub Reachable-IsValid :
    (owner : String → String) (m : SessionManager) → Reachable owner m → IsValid owner m
Reachable-IsValid owner m initially = IsValid-new owner
Reachable-IsValid owner m (then_by r s) = IsValid-Step owner (Reachable-IsValid owner _ r) s
