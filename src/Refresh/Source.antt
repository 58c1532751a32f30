-- ===== src/Refresh/Source.antt =====
-- internal/refresh/refresh.go and internal/mail/source.go: the remote source, a parameter of the
-- refresh. It answers each call, one of the refresh of one folder, by a value or an error.
use ksuite_mail.Common.{ℕ, Bool, List, Result, Text, codes}
use ksuite_mail.Mail.{Account, UidRange, RemoteFolderState, MessageHeaders, MessageEnvelope}
use ksuite_mail.Cache.Tables.{DbError}

-- What errors.Is tells apart.
pub data SourceError : Type 0 where
  canceled deadline_exceeded source_unavailable permission_denied other_error : SourceError

pub record ReadStateProbeResult : Type 0 where
  pub observed : Bool
  pub seen_before : Bool
  pub seen_after : Bool

pub record Source : Type 0 where
  pub capabilities : Account → Result SourceError (List Text)
  pub folders : Account → Result SourceError (List Text)
  pub select_folder : Account → Text → Result SourceError RemoteFolderState
  pub search_allowed : Account → Text → Text → Text → UidRange → Result SourceError (List ℕ)
  pub list_uids : Account → Text → UidRange → Result SourceError (List ℕ)
  pub fetch_headers : Account → Text → List ℕ → Result SourceError (List MessageHeaders)
  pub fetch_envelopes : Account → Text → List ℕ → Result SourceError (List MessageEnvelope)
  pub fetch_seen_state : Account → Text → ℕ → Result SourceError (Bool × Bool)
  pub fetch_body_preview : Account → Text → ℕ → ℕ → Result SourceError Text
  pub fetch_body_preview_and_seen_state :
      Account → Text → ℕ → ℕ → Result SourceError (Text × ReadStateProbeResult)

-- An error of refreshFolder: the local cache's, wrapped in localCacheError, or the source's; or the
-- panic of an index out of range.
pub data RefreshError : Type 0 where
  local_cache : DbError → RefreshError
  remote : SourceError → RefreshError
  panicked : RefreshError

unfoldable pub remote_error_code : SourceError → Text
remote_error_code canceled = codes "remote_canceled"
remote_error_code deadline_exceeded = codes "remote_timeout"
remote_error_code source_unavailable = codes "remote_source_unavailable"
remote_error_code permission_denied = codes "remote_source_error"
remote_error_code other_error = codes "remote_source_error"
