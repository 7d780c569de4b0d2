-- ===== src/Restore.antt =====
-- The restore of a backup: what of the current history a restored database must keep.
mod Policy
mod Schema
mod Domains
mod Snapshot
mod Preserved
mod Keeping
mod Closure
mod References
mod Tests
