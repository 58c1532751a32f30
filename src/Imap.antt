-- ===== src/Imap.antt =====
-- internal/imapadapter/adapter.go: the live source, over IMAP. Its texts and UID sets are in the
-- modules Names, Quoting, Search and Ranges, the raw connection in Wire, the sessions with the client of
-- go-imap, a parameter, in Sessions, and the methods of the source in Methods.
pub mod Names
pub mod Quoting
pub mod Search
pub mod Ranges
pub mod Wire
pub mod Sessions
pub mod Methods
pub mod Calls
pub mod Conduct
pub mod Composed
pub mod Spoken
pub mod Injection
pub mod Found
