-- ===== src/Refresh.antt =====
-- internal/refresh/refresh.go: the refresh of the cache from a remote source. `Content` cuts the texts,
-- `Uids` handles lists of UIDs, `Source` is the remote source, `Discover` finds the candidates, `Allowed` asks
-- the policy, `Folder` refreshes one folder and `Cycle` all of them. The other modules are about these.
pub mod Content
pub mod Uids
pub mod Source
pub mod Discover
pub mod Allowed
pub mod Folder
pub mod Cycle
pub mod Keeps
pub mod Keeping
pub mod Whole
pub mod Cleared
pub mod Truncated
pub mod Discovered
pub mod Deduped
pub mod Reported
