-- ===== src/Sessions.antt =====
-- services/agent-runner/src/session: the table of the sessions and the caps on their number (caps.rs,
-- mod.rs, natural_exit.rs). A `HashMap` of counts is a function, 0 where it has no entry. Each function
-- is what happens under one lock, or one operation of the semaphore; the steps of different sessions
-- interleave between them.
pub mod Caps
pub mod Steps
pub mod Invariant
pub mod Races
use rustacean.Common.{
  ℕ, zero, suc, ◌+◌, ◌-◌, String, Bool, Option, none, some, List, [], ◌∷◌, length, leb,
  if◌then◌else◌,
}
use rustacean.Sessions.Caps.{SessionCaps, new_caps, take_permit, count_tenant, release, drop_permit}
use text.Mathlib.Text.{◌==◌}

-- `MAX_TRACKED_SESSIONS`
abbrev pub max_tracked_sessions : ℕ
max_tracked_sessions = 100000

-- Session ids with the tenants of their handles.
abbrev pub Table : Type 0
Table = List (String × String)

-- Beside the caps and the table of the handles: `admitted` are the calls of `start_session` that hold
-- a permit and are not counted yet, `starting` those that are counted and hold an armed guard; `removed`
-- are the handles that are out of the table and still counted, and `ending` is the number of the
-- calls and handles that only have a permit left to drop. `replaced`, which the code does not keep,
-- has the entries that a commit of the same id put out of the table.
pub record SessionManager : Type 0 where
  pub caps : SessionCaps
  pub admitted : Table
  pub starting : Table
  pub sessions : Table
  pub removed : Table
  pub ending : ℕ
  pub replaced : Table

abbrev pub new_manager : SessionManager
new_manager = record {
  caps = new_caps;
  admitted = [];
  starting = [];
  sessions = [];
  removed = [];
  ending = 0;
  replaced = [];
}

abbrev keep_entry : String × String → Option (String × Table) → Option (String × Table)
keep_entry e none = none
keep_entry e (some (tenant, rest)) = some (tenant, e ∷ rest)

-- `HashMap::remove`
unfoldable pub remove : String → Table → Option (String × Table)
remove id [] = none
remove id ((other, tenant) ∷ entries) =
    let rest = remove id entries in
    if id == other then some (tenant, entries) else keep_entry (other, tenant) rest

abbrev admit : String → String → SessionManager → Option SessionCaps → SessionManager
admit id tenant m none = m
admit id tenant m (some caps) = record m { caps = caps; admitted = (id, tenant) ∷ m.admitted }

-- The first half of `caps.acquire(tenant_id)`.
unfoldable pub start_session : String → String → SessionManager → SessionManager
start_session id tenant m = admit id tenant m (take_permit m.caps)

abbrev settle : String → String → Table → SessionManager → Option SessionCaps → SessionManager
settle id tenant rest m none = record m { admitted = rest; ending = suc m.ending }
settle id tenant rest m (some caps) = record m {
  caps = caps;
  admitted = rest;
  starting = (id, tenant) ∷ m.starting;
}

-- Its second half, which on an error leaves the permit to drop.
unfoldable pub count_start : String → SessionManager → SessionManager
unfolding remove
count_start id m = elim (remove id m.admitted) [
  | none ↦ m
  | some (tenant, rest) ↦ settle id tenant rest m (count_tenant tenant m.caps)
]

-- The drop of the armed guard, before that of the permit.
abbrev pub roll_back : String → Table → SessionManager → SessionManager
roll_back tenant rest m = record m {
  caps = release tenant m.caps;
  starting = rest;
  ending = suc m.ending;
}

-- An early return of `start_session` behind `acquire`.
unfoldable pub abandon : String → SessionManager → SessionManager
unfolding remove
abandon id m = elim (remove id m.starting) [
  | none ↦ m
  | some (tenant, rest) ↦ roll_back tenant rest m
]

-- `sessions.insert(..)`; the handle that it replaces, if there is one, has its permit to drop.
abbrev insert : String → String → Table → SessionManager → SessionManager
insert id tenant starting m = elim (remove id m.sessions) [
  | none ↦ record m { starting = starting; sessions = (id, tenant) ∷ m.sessions }
  | some (old, others) ↦ record m {
    starting = starting;
    sessions = (id, tenant) ∷ others;
    ending = suc m.ending;
    replaced = (id, old) ∷ m.replaced;
  }
]

-- The end of `start_session`, under the lock of the table.
unfoldable pub commit : String → SessionManager → SessionManager
unfolding remove
commit id m = elim (remove id m.starting) [
  | none ↦ m
  | some (tenant, rest) ↦
      if leb max_tracked_sessions (length m.sessions)
      then roll_back tenant rest m
      else insert id tenant rest m
]

-- The handler of a natural exit, which has the id and the tenant of its session, under the lock of the
-- table.
unfoldable pub natural_exit : String → String → SessionManager → SessionManager
unfolding remove
natural_exit id tenant m = elim (remove id m.sessions) [
  | none ↦ m
  | some (_, rest) ↦ record m { sessions = rest; removed = (id, tenant) ∷ m.removed }
]

-- `terminate_session`, under the lock of the table.
unfoldable pub terminate_session : String → SessionManager → SessionManager
unfolding remove
terminate_session id m = elim (remove id m.sessions) [
  | none ↦ m
  | some (tenant, rest) ↦ record m { sessions = rest; removed = (id, tenant) ∷ m.removed }
]

-- Later in either of them, under the lock of the counts.
unfoldable pub release_removed : String → SessionManager → SessionManager
unfolding remove
release_removed id m = elim (remove id m.removed) [
  | none ↦ m
  | some (tenant, rest) ↦ record m {
    caps = release tenant m.caps;
    removed = rest;
    ending = suc m.ending;
  }
]

-- The drop of a permit.
abbrev drop_one : ℕ → SessionManager → SessionManager
drop_one zero m = m
drop_one (suc n) m = record m { caps = drop_permit m.caps; ending = n }

unfoldable pub drop_handle : SessionManager → SessionManager
drop_handle m = drop_one m.ending m
