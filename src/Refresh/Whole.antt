-- ===== src/Refresh/Whole.antt =====
-- internal/refresh/refresh.go: invariants of Refresh, and the consistency of the tables under it.
use ksuite_mail.Common.{refl, Bool-cases, inl, inr, some, List, [], ◌∷◌, Result, ok, err, In, Text}
use ksuite_mail.Strings.{Platform, is_empty}
use ksuite_mail.Mail.{Account, Config}
use ksuite_mail.Actions.Keeps.{Keeps, Keeps-pure, Keeps-bind}
use ksuite_mail.Cache.Tables.{Tables}
use ksuite_mail.Cache.Session.{Repository}
use ksuite_mail.Cache.Reads.{folder_state, latest_refresh_at}
use ksuite_mail.Cache.Rules.{OfTables, query-Keeps}
use ksuite_mail.Cache.Consistent.{IsConsistent}
use ksuite_mail.Cache.Invariant.{
  upsert_message-Safe, mark_folder_verified-Safe, mark_uids_verified-Safe,
  delete_missing_by_uid_set-Safe, delete_missing_by_uid_set_in_range-Safe, upsert_folder_state-Safe,
}
use ksuite_mail.Cache.Sweep.{delete_by_folder-Safe}
use ksuite_mail.Refresh.Source.{Source, RefreshError, local_cache, remote, panicked}
use ksuite_mail.Refresh.Cycle.{
  RefreshOptions, Progress, note_outcome, folder_last_successful_refresh_at, refresh_one,
  refresh_folders, refresh_accounts, summarize, finish_cycle, refresh, preview_bytes_of, start,
}
use ksuite_mail.Refresh.Keeps.{IsKept}
use ksuite_mail.Refresh.Keeping.{Stores, refresh_folder-Keeps}

module _ (p : Platform) (src : Source) (opts : RefreshOptions) (P : Tables → Type 0)
    (k : IsKept P) where
  note_outcome-Keeps :
      (account : Account) (folder : Text) (progress : Progress)
      (res : Result RefreshError (Unit {0}))
      → Keeps (OfTables P) (note_outcome account folder progress res)
  unfolding note_outcome folder_last_successful_refresh_at folder_state
  note_outcome-Keeps account folder progress (ok u) = record { at = λ r h. h }
  note_outcome-Keeps account folder progress (err (local_cache e)) = record { at = λ r h. h }
  note_outcome-Keeps account folder progress (err panicked) = record { at = λ r h. h }
  note_outcome-Keeps account folder progress (err (remote e)) = record {
    at = λ r h. (query-Keeps P _).at r h;
  }

  refresh_one-Keeps :
      (account : Account) (folder : Text) (progress : Progress)
      → Stores p src account folder P
      → Keeps (OfTables P) (refresh_one p src opts account folder progress)
  unfolding refresh_one
  refresh_one-Keeps account folder progress s = record {
    at = λ r h. (note_outcome-Keeps account folder progress _).at _ (
        (refresh_folder-Keeps p src account folder P k s (preview_bytes_of p src opts) opts.now
            opts.max_candidates).at
          r h);
  }

  refresh_folders-Keeps :
      (account : Account) (folders : List Text) (progress : Progress)
      → ((folder : Text) → In folder folders → Stores p src account folder P)
      → Keeps (OfTables P) (refresh_folders p src opts account folders progress)
  unfolding refresh_folders
  refresh_folders-Keeps account [] progress s = Keeps-pure progress
  refresh_folders-Keeps account (folder ∷ folders) progress s =
      Keeps-bind _ _ (refresh_one-Keeps account folder progress (s folder (inl refl)))
        λ progress'. refresh_folders-Keeps account folders progress' (λ f i. s f (inr i))

  refresh_accounts-Keeps :
      (accounts : List Account) (progress : Progress)
      → ((account : Account) (folder : Text)
          → In account accounts
          → In folder account.folders
          → Stores p src account folder P)
      → Keeps (OfTables P) (refresh_accounts p src opts accounts progress)
  unfolding refresh_accounts
  refresh_accounts-Keeps [] progress s = Keeps-pure progress
  refresh_accounts-Keeps (account ∷ accounts) progress s =
      Keeps-bind _ _
        (refresh_folders-Keeps account account.folders progress (λ f i. s account f (inl refl) i))
        λ progress'. refresh_accounts-Keeps accounts progress' (λ a f i j. s a f (inr i) j)

  finish_cycle-Keeps :
      (res : Result RefreshError Progress) (r : Repository)
      → P r.tables
      → P (finish_cycle opts.now (res, r)).1.tables
  unfolding summarize latest_refresh_at
  finish_cycle-Keeps (err e) r h = h
  finish_cycle-Keeps (ok progress) r h = elim (Bool-cases progress.any_success) [
    | inl e ↦ rw e h
    | inr e ↦ rw e ((query-Keeps P _).at r h)
  ]

  pub refresh-Keeps :
      (cfg : Config)
      → ((account : Account) (folder : Text)
          → In account cfg.accounts
          → In folder account.folders
          → Stores p src account folder P)
      → Keeps (OfTables P) (refresh p cfg (some src) opts)
  unfolding refresh
  refresh-Keeps cfg s = record {
    at = λ r h. elim (Bool-cases (is_empty cfg.accounts)) [
      | inl e ↦ rw e h
      | inr e ↦ rw e (finish_cycle-Keeps _ _ ((refresh_accounts-Keeps cfg.accounts start s).at r h))
    ];
  }

IsConsistent-IsKept : IsKept IsConsistent
IsConsistent-IsKept = record {
  by_mark_folder = mark_folder_verified-Safe;
  by_mark_uids = mark_uids_verified-Safe;
  by_delete_folder = delete_by_folder-Safe;
  by_delete_missing = delete_missing_by_uid_set-Safe;
  by_delete_in_range = delete_missing_by_uid_set_in_range-Safe;
  by_upsert_state = upsert_folder_state-Safe;
}

-- Whatever the remote source answers, and wherever the database driver fails, Refresh leaves
-- consistent tables consistent, whether it returns a result or an error.
pub refresh-IsConsistent :
    (p : Platform) (cfg : Config) (src : Source) (opts : RefreshOptions) (r : Repository)
    → IsConsistent r.tables
    → IsConsistent (refresh p cfg (some src) opts r).1.tables
refresh-IsConsistent p cfg src opts r v =
    (refresh-Keeps p src opts IsConsistent IsConsistent-IsKept cfg
        (λ account folder i j uidvalidity now env body reason f c b. upsert_message-Safe _)).at
      r v
