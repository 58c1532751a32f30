-- ===== src/Lib.antt =====
-- ksuite-mail: a daemon that keeps a local cache of the messages in mailboxes which a policy approves,
-- and answers read commands from it.
--
-- The parts, and the modules that model them:
--
-- - internal/config: a configuration lists accounts, each with its folders and with the policy full or
--   domain. Mail has the structs; Settings has Validate (`validate`) and ParseTTL (`parse_ttl`).
-- - internal/policy: DomainMatch says whether an envelope has an address of a configured domain. Policy.
-- - internal/mail: the messages and PublicID (Mail), and the interface of a remote source, which is a
--   parameter (Refresh.Source).
-- - internal/cache: Repository, over the tables messages, messages_fts and folder_state. Cache.Tables has
--   the rows and the statements, Cache.Session the statements' faults and the transactions, Cache.Writes,
--   Cache.Cleanup and Cache.Reads the methods, Cache.Stamp the times as text. A method is an action on the
--   state `Repository`; `faults` decides which calls of the driver fail.
-- - internal/refresh: Refresh brings the cache up to date with a source. Refresh.Allowed has what the
--   policy lets pass, Refresh.Folder the refresh of one folder, step by step in the order of the code,
--   Refresh.Cycle the loops over accounts and folders, Refresh.Discover, Refresh.Uids and Refresh.Content the
--   helpers.
-- - internal/api: the objects of requests and responses, and the status of a read. Api.
-- - internal/imapadapter: the source over IMAP, Source. Imap.Sessions has a session with the client of
--   go-imap, whose state is what has been done so far (`Event`), Imap.Methods the methods and the whole as a
--   source (`live_source`), Imap.Wire the raw connection of SearchAllowed (`Wire`), Imap.Names, Quoting,
--   Search and Ranges the texts, the UID sets and the deadlines, Imap.Calls sequences of calls.
-- - internal/providerprobe: RunIMAP runs the nine checks of a checklist on a source. Probe.Checks makes the
--   checks, Probe.Strategy, Headers and ReadState are those of the UIDs, the headers and the read state, and
--   Probe.Run puts them together (`run_imap`).
-- - internal/secrets and internal/doctor: the credentials' file (Secrets) and the report on a deployment
--   (Doctor, `run`).
-- - internal/bootstrap, internal/layout, internal/systemd and Starter of internal/config: init. Layout has the
--   paths and modes, Bootstrap.Host the files, the directories and the calls that may fail, Bootstrap.Users,
--   Files and Accounts the steps, Bootstrap.Run the units and Run.
-- - internal/daemon: a read command refreshes the cache, reads it in batches, drops what the current
--   configuration does not allow, and reports how the refresh went. Daemon.Access has the checks and the
--   limits, Daemon.Paging the loops, Daemon.Scope the status and the warnings, Daemon.Server what precedes a
--   read, Daemon.Replies and Daemon.Handlers the five commands, Daemon.Diagnostics health, doctor and the
--   provider probe.
--
-- The daemon calls the cache, the refresh, the doctor and the probe; the refresh calls the cache, the
-- policy and the source, the probe the source; the IMAP adapter is a source, and reads the secrets.
-- The modules below those say what they prove: Policy.Exact; Cache.Consistent, Invariant, Sweep,
-- Expiry, Contents, History and Trips; Refresh.Keeps, Keeping, Whole, Cleared, Truncated, Discovered,
-- Deduped and Reported; Daemon.Permitted, Cached, Pages, Threads, Rounds, Listed, Contexts, Visible,
-- Shown, Showing, Threaded, Budget, Affected and Probing; Imap.Conduct, Injection, Spoken, Found and
-- Composed; Probe.Ids, Checklist, Evident, Searched, Sound and Window; Doctor.Sound and Secretless;
-- Secrets.Loaded; Bootstrap.Views, Bound, Configured, Kept, Whole, Ended, Fresh and Rerun;
-- Settings.Valid and Digits. Common has the shared lists, texts and numbers, Actions the methods with
-- state and errors and the rules for their invariants. Tests has concrete runs.
--
-- Texts are lists of runes, and hold well-formed UTF-8. Times are nanoseconds. A Go error is a value
-- beside the state that the call leaves. The loops of Daemon.Paging have maxReadWindow rounds as fuel,
-- which is enough, as each round that goes on raises the offset and the loop ends at maxReadWindow
-- (Daemon.Rounds). The loop of `command` is recursion on the lines to come, which end with an error of a
-- read, and the loops of the probe are recursion on their lists. A decimal of PublicID has 20 digits, as a
-- uint64 has at most.
--
-- Parameters: Unicode case, net/mail's address list, the hash of PublicID (`Platform`); the remote source
-- (`Source`); the client of go-imap and its server, which answer by all that was done before (`Client`), the
-- server's lines on the raw connection (`Wire`), the text of a UID set; MATCH of FTS5, the opening of the
-- cache and the texts of errors (`Server`); what the operating system finds and which of its calls fail
-- (`Deployment`, `SecretsFile`, `Outside`), the user database and the prompt (`UserProvisioner`,
-- `Prompter`); the codecs of TOML and JSON, which init relies on to decode what they encoded (`IsCodec`).
--
-- Not modelled: SQL text, the migration of old schemas, the texts of JSON and TOML, the HTTP server and its
-- sockets, TLS settings, the lock of a folder (a command is one step), the clock within a command (it has one
-- time), the cancellation of a context other than as an error of the source, and the temporary file of a
-- write, which is renamed or removed. In init, os.ErrNotExist is only the error of a file that is not there,
-- and the log is left out. internal/bootstrap/real.go, internal/udsclient and cmd are calls of the system and
-- of libraries, and internal/mailfake is a source for tests.
pub mod Common
pub mod Strings
pub mod Mail
pub mod Settings
pub mod Policy
pub mod Actions
pub mod Secrets
pub mod Cache
pub mod Api
pub mod Refresh
pub mod Imap
pub mod Probe
pub mod Doctor
pub mod Layout
pub mod Bootstrap
pub mod Daemon
pub mod Tests
