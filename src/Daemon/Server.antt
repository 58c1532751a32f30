-- ===== src/Daemon/Server.antt =====
-- internal/daemon/daemon.go: what a request needs before it reads, and how it is answered. The cache
-- that openRepository opens is the state; one request is one step.
use ksuite_mail.Common.{
  ℕ, ◌*◌, Bool, true, false, not, Option, none, some, List, [], ◌∷◌, map, Result, ok, if◌then◌else◌,
  min, max, Text, codes,
}
use ksuite_mail.Common.Ints.{ℤ, pos}
use ksuite_mail.Strings.{Platform, trim_space, is_empty}
use ksuite_mail.Mail.{Config}
use ksuite_mail.Api.{
  Status, status_ok, status_ok_stale, status_partial, status_error, ApiError, Envelope, RefreshMeta,
  read_status, ok_with_status,
}
use ksuite_mail.Actions.{Action, pure, raise, lift, ◌>>=◌, ◌>>◌, with_error}
use ksuite_mail.Settings.{TtlError, parse_ttl, seconds}
use ksuite_mail.Cache.Tables.{FtsRow, DbError}
use ksuite_mail.Cache.Session.{Repository}
use ksuite_mail.Cache.Reads.{latest_refresh_at}
use ksuite_mail.Cache.Cleanup.{cleanup_expired}
use ksuite_mail.Refresh.Source.{Source, RefreshError}
use ksuite_mail.Refresh.Cycle.{Warning, RefreshResult, refresh, default_preview_bytes}
use ksuite_mail.Daemon.Access.{max_read_window, effective_read_limit}

-- What the server finds outside: loadConfig, openRepository and the source factory, with the texts of
-- their errors; the texts of the other errors; and MATCH of SQLite's FTS5.
pub record Server : Type 0 where
  pub config : Result Text Config
  pub opening : Result Text (Unit {0})
  pub source : Result Text (Option Source)
  pub matches : Text → FtsRow → Bool
  pub ttl_text : TtlError → Text
  pub cache_text : DbError → Text
  pub refresh_text : RefreshError → Text

-- The code of the response, and its error.
pub record Failure : Type 0 where
  pub http : ℕ
  pub error : ApiError

abbrev pub failure : ℕ → Text → Text → Failure
failure http code message = record {
  http = http;
  error = record { code = code; message = message };
}

abbrev pub Handler : Type 0 → Type 0
Handler A = Action Repository Failure A

abbrev pub internal_error : Text → Failure
internal_error message = failure 500 (codes "internal_error") message

abbrev pub bad_request : Text → Failure
bad_request message = failure 400 (codes "bad_request") message

abbrev pub not_found : Failure
not_found = failure 404 (codes "not_found") (codes "message not found")

-- `if test { writeError; return }`
abbrev pub reject_if : Bool → Failure → Handler (Unit {0})
reject_if test f = if test then raise f else pure tt

abbrev pub require : {A : Type 0} → Failure → Option A → Handler A
require f none = raise f
require f (some a) = pure a

-- Whether the method is POST, and the decoded body.
abbrev pub receive : {A : Type 0} → Text → Bool → Result Text A → Handler A
receive message is_post body =
    reject_if (not is_post) (failure 405 (codes "method_not_allowed") message)
    >> with_error bad_request (lift body)

-- cleanupExpired: without a lifetime, 90 days.
unfoldable pub cache_lifetime : Config → Result TtlError ℤ
unfolding parse_ttl trim_space
cache_lifetime cfg =
    if is_empty (trim_space cfg.cache_ttl)
    then ok (pos (seconds (90 * 86_400)))
    else parse_ttl cfg.cache_ttl

abbrev pub without_source : Option ℕ → RefreshResult
without_source last = record {
  meta = record { attempted = false; remote_ok = false; last_successful_refresh_at = last };
  warnings =
      record {
        code = codes "remote_source_unavailable";
        message = codes "remote refresh source is unavailable";
        account_id = [];
        folder = [];
        last_successful_refresh_at = none;
      }
      ∷ [];
  partial = true;
}

module _ (p : Platform) (srv : Server) (cfg : Config) where
  unfoldable pub refresh_from : ℕ → Option Source → Action Repository Text RefreshResult
  unfolding with_error refresh latest_refresh_at
  refresh_from min_candidates none r =
      let (last, r') = latest_refresh_at r in (ok (without_source last), r')
  refresh_from min_candidates (some src) r =
      with_error srv.refresh_text
        (refresh p cfg (some src) (record {
          now = r.now;
          preview_bytes = default_preview_bytes;
          max_candidates =
              min (max (effective_read_limit cfg.default_limit (pos 0)) min_candidates)
                max_read_window;
        }))
        r

  -- refreshAndLoadConfig
  unfoldable pub refresh_and_load_config : ℕ → Action Repository Text RefreshResult
  unfolding ◌>>=◌ ◌>>◌ with_error refresh_from cache_lifetime cleanup_expired
  refresh_and_load_config min_candidates = do
    lift srv.opening
    ttl ← with_error srv.ttl_text (lift (cache_lifetime cfg))
    with_error srv.cache_text (cleanup_expired ttl)
    src ← lift srv.source
    refresh_from min_candidates src

-- writeReadOK
abbrev pub to_api_warning : Warning → ksuite_mail.Api.Warning
to_api_warning w = record { code = w.code; message = w.message }

unfoldable pub read_ok : {R : Type 0} → Status → R → List Warning → Envelope R
read_ok status_error payload warnings =
    record (ok_with_status status_error payload (map to_api_warning warnings)) {
      error = some (record {
        code = codes "remote_refresh_failed";
        message = codes "remote refresh failed and no local cached result was available";
      });
    }
read_ok status payload warnings = ok_with_status status payload (map to_api_warning warnings)

-- `if status != api.StatusError { return false }`
abbrev pub if_error : {A : Type 0} → Status → A → Option A
if_error status_ok a = none
if_error status_ok_stale a = none
if_error status_partial a = none
if_error status_error a = some a

-- writeRefreshMiss: the envelope that it writes, if it writes one.
unfoldable pub refresh_miss : {R : Type 0} → R → RefreshResult → Option (Envelope R)
unfolding read_ok read_status
refresh_miss payload res =
    if_error (read_status res.meta res.partial false) (read_ok status_error payload res.warnings)
