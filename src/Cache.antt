-- ===== src/Cache.antt =====
-- internal/cache/cache.go: the repository of approved messages. `Stamp` has the times as text, `Tables` the
-- three tables and their statements, `Session` the database handle, and `Writes`, `Cleanup` and `Reads` the
-- methods of Repository. The other modules are about these.
pub mod Stamp
pub mod Tables
pub mod Session
pub mod Writes
pub mod Reads
pub mod Cleanup
pub mod Rows
pub mod Rules
pub mod Consistent
pub mod Invariant
pub mod Sweep
pub mod Expiry
pub mod Contents
pub mod History
pub mod Trips
