-- ===== src/Tests.antt =====
-- Tests: each theorem with hypotheses, at a concrete input where they hold.
mod Tenants
mod Writes
mod Scopes
mod Walks
mod Streams
mod Runs
mod Logins
mod Resolutions
mod Watches
mod Lines
mod Relays
mod Reconciles
mod Outputs
