-- ===== src/Refresh/Cycle.antt =====
-- internal/refresh/refresh.go: Refresh, over all folders of all accounts. Its repository and its
-- configuration are given here; Go returns an error without them.
use ksuite_mail.Common.{
  ℕ, Bool, true, false, not, Option, none, some, List, [], ◌∷◌, ◌++◌, Result, ok, err, ◌==◌,
  if◌then◌else◌, Text, codes,
}
use ksuite_mail.Strings.{Platform, is_empty}
use ksuite_mail.Mail.{Account, Config}
use ksuite_mail.Api.{RefreshMeta}
use ksuite_mail.Actions.{pure, ◌>>=◌}
use ksuite_mail.Cache.Tables.{FolderState, DbError}
use ksuite_mail.Cache.Session.{Repository}
use ksuite_mail.Cache.Reads.{folder_state, latest_refresh_at}
use ksuite_mail.Refresh.Source.{
  Source, SourceError, RefreshError, local_cache, remote, panicked, remote_error_code,
}
use ksuite_mail.Refresh.Folder.{refresh_folder}
use ksuite_mail.Refresh.Allowed.{Step}

pub record Warning : Type 0 where
  pub code : Text
  pub message : Text
  pub account_id : Text
  pub folder : Text
  pub last_successful_refresh_at : Option ℕ

pub record RefreshResult : Type 0 where
  pub meta : RefreshMeta
  pub warnings : List Warning
  pub partial : Bool

pub record RefreshOptions : Type 0 where
  pub now : ℕ
  pub preview_bytes : ℕ
  pub max_candidates : ℕ

abbrev pub default_preview_bytes : ℕ
default_preview_bytes = 4096

abbrev pub state_success : Result DbError (Option FolderState) → Option ℕ
state_success (ok (some state)) = state.last_successful_refresh
state_success (ok none) = none
state_success (err e) = none

-- folderLastSuccessfulRefreshAt
unfoldable pub folder_last_successful_refresh_at : Text → Text → Repository → Option ℕ × Repository
folder_last_successful_refresh_at account_id folder r =
    let (res, r') = folder_state account_id folder r in (state_success res, r')

-- What the loops carry: anySuccess, allSuccess and the warnings. Partial is set with the first
-- warning.
pub record Progress : Type 0 where
  pub any_success : Bool
  pub all_success : Bool
  pub warnings : List Warning

abbrev pub failed_folder : Account → Text → SourceError → Option ℕ → Progress → Progress
failed_folder account folder e last progress = record {
  any_success = progress.any_success;
  all_success = false;
  warnings =
      progress.warnings
      ++ record {
        code = remote_error_code e;
        message = codes "remote refresh failed for one or more folders";
        account_id = account.id;
        folder = folder;
        last_successful_refresh_at = last;
      }
        ∷ [];
}

-- The loop body after refreshFolder.
unfoldable pub note_outcome :
    Account → Text → Progress → Result RefreshError (Unit {0}) → Step Progress
note_outcome account folder progress (ok u) r = (ok (record progress { any_success = true }), r)
note_outcome account folder progress (err (local_cache e)) r = (err (local_cache e), r)
note_outcome account folder progress (err panicked) r = (err panicked, r)
note_outcome account folder progress (err (remote e)) r =
    let (last, r') = folder_last_successful_refresh_at account.id folder r in
    (ok (failed_folder account folder e last progress), r')

module _ (p : Platform) (src : Source) (opts : RefreshOptions) where
  unfoldable pub preview_bytes_of : ℕ
  preview_bytes_of = if opts.preview_bytes == 0 then default_preview_bytes else opts.preview_bytes

  unfoldable pub refresh_one : Account → Text → Progress → Step Progress
  unfolding preview_bytes_of note_outcome
  refresh_one account folder progress r =
      let (res, r') =
        refresh_folder p src account folder preview_bytes_of opts.now opts.max_candidates r in
      note_outcome account folder progress res r'

  unfoldable pub refresh_folders : Account → List Text → Progress → Step Progress
  unfolding refresh_one ◌>>=◌
  refresh_folders account [] progress = pure progress
  refresh_folders account (folder ∷ folders) progress =
      refresh_one account folder progress >>= refresh_folders account folders

  unfoldable pub refresh_accounts : List Account → Progress → Step Progress
  unfolding refresh_folders ◌>>=◌
  refresh_accounts [] progress = pure progress
  refresh_accounts (account ∷ accounts) progress =
      refresh_folders account account.folders progress >>= refresh_accounts accounts

abbrev pub result_of : Progress → Bool → Option ℕ → RefreshResult
result_of progress remote_ok last = record {
  meta = record { attempted = true; remote_ok = remote_ok; last_successful_refresh_at = last };
  warnings = progress.warnings;
  partial = not progress.all_success;
}

-- The end of Refresh.
unfoldable pub summarize : ℕ → Progress → Repository → RefreshResult × Repository
summarize now progress r =
    if progress.any_success
    then (result_of progress progress.all_success (some now), r)
    else let (latest, r') = latest_refresh_at r in (result_of progress false latest, r')

abbrev pub start : Progress
start = record { any_success = false; all_success = true; warnings = [] }

-- What Refresh returns without a source or without accounts.
abbrev pub nothing_to_do : RefreshResult
nothing_to_do = record {
  meta = record { attempted = false; remote_ok = true; last_successful_refresh_at = none };
  warnings = [];
  partial = false;
}

abbrev pub finish_cycle :
    ℕ → Result RefreshError Progress × Repository → Result RefreshError RefreshResult × Repository
finish_cycle now (ok progress, r) = let (result, r') = summarize now progress r in (ok result, r')
finish_cycle now (err e, r) = (err e, r)

unfoldable pub refresh : Platform → Config → Option Source → RefreshOptions → Step RefreshResult
unfolding refresh_accounts summarize
refresh p cfg none opts r = (ok nothing_to_do, r)
refresh p cfg (some src) opts r =
    if is_empty cfg.accounts
    then (ok nothing_to_do, r)
    else finish_cycle opts.now (refresh_accounts p src opts cfg.accounts start r)
