-- ===== src/Bootstrap.antt =====
-- internal/bootstrap: `ksuite-mail init`. Bootstrap.Host has the host that it changes, Bootstrap.Users the
-- access group and the service user, Bootstrap.Files the loading and writing of the two files,
-- Bootstrap.Accounts what is done with or without an account, Bootstrap.Run the whole run.
pub mod Host
pub mod Users
pub mod Files
pub mod Accounts
pub mod Run
pub mod Views
pub mod Bound
pub mod Configured
pub mod Kept
pub mod Whole
pub mod Ended
pub mod Fresh
pub mod Rerun
