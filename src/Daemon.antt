-- ===== src/Daemon.antt =====
-- internal/daemon/daemon.go: the read commands. `Access` says which cached messages a request may see,
-- `Paging` walks over the cache in batches, `Scope` reduces the outcome of a refresh to what a request asked
-- for, `Server` has what precedes a read, `Replies` and `Handlers` the commands. The other modules are about
-- these.
pub mod Access
pub mod Permitted
pub mod Cached
pub mod Paging
pub mod Pages
pub mod Threads
pub mod Rounds
pub mod Listed
pub mod Contexts
pub mod Scope
pub mod Affected
pub mod Visible
pub mod Shown
pub mod Showing
pub mod Budget
pub mod Threaded
pub mod Server
pub mod Diagnostics
pub mod Probing
pub mod Replies
pub mod Handlers
