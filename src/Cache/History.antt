-- ===== src/Cache/History.antt =====
-- internal/cache/cache.go: any sequence of the writing methods, DeleteAll aside.
use ksuite_mail.Common.{ℕ, List, [], ◌∷◌, Text}
use ksuite_mail.Common.Ints.{ℤ}
use ksuite_mail.Mail.{CachedMessage}
use ksuite_mail.Cache.Tables.{FolderState}
use ksuite_mail.Cache.Session.{Repository, Db}
use ksuite_mail.Cache.Writes.{
  upsert_message, mark_folder_verified, mark_uids_verified, delete_by_message_ref, delete_by_folder,
  delete_missing_by_uid_set, delete_missing_by_uid_set_in_range, upsert_folder_state,
}
use ksuite_mail.Cache.Cleanup.{cleanup_expired}
use ksuite_mail.Cache.Consistent.{IsConsistent}
use ksuite_mail.Cache.Invariant.{
  Safe, upsert_message-Safe, mark_folder_verified-Safe, mark_uids_verified-Safe,
  delete_by_message_ref-Safe, delete_missing_by_uid_set-Safe,
  delete_missing_by_uid_set_in_range-Safe, upsert_folder_state-Safe,
}
use ksuite_mail.Cache.Sweep.{delete_by_folder-Safe}
use ksuite_mail.Cache.Expiry.{cleanup_expired-Safe}

-- A call of a writing method.
pub data Write : Type 0 where
  upsert : CachedMessage → Write
  mark_folder : Text → Text → ℕ → ℕ → Write
  mark_uids : Text → Text → ℕ → List ℕ → ℕ → Write
  delete_ref : Text → Text → ℕ → Write
  delete_folder : Text → Text → Write
  delete_missing : Text → Text → List ℕ → Write
  delete_missing_in_range : Text → Text → List ℕ → ℕ → ℕ → Write
  put_state : FolderState → Write
  expire : ℤ → Write

unfoldable pub perform : Write → Db (Unit {0})
unfolding upsert_message mark_folder_verified mark_uids_verified delete_by_message_ref
    delete_by_folder delete_missing_by_uid_set delete_missing_by_uid_set_in_range
    upsert_folder_state cleanup_expired
perform (upsert msg) = upsert_message msg
perform (mark_folder account folder uidvalidity at) =
    mark_folder_verified account folder uidvalidity at
perform (mark_uids account folder uidvalidity uids at) =
    mark_uids_verified account folder uidvalidity uids at
perform (delete_ref account folder uid) = delete_by_message_ref account folder uid
perform (delete_folder account folder) = delete_by_folder account folder
perform (delete_missing account folder keep) = delete_missing_by_uid_set account folder keep
perform (delete_missing_in_range account folder keep min_uid max_uid) =
    delete_missing_by_uid_set_in_range account folder keep min_uid max_uid
perform (put_state fs) = upsert_folder_state fs
perform (expire ttl) = cleanup_expired ttl

-- The calls one after the other, whatever each returns.
unfoldable pub run : List Write → Repository → Repository
unfolding perform
run [] r = r
run (w ∷ ws) r = run ws (perform w r).1

perform-Safe : (w : Write) → Safe (perform w)
unfolding perform
perform-Safe (upsert msg) = upsert_message-Safe msg
perform-Safe (mark_folder account folder uidvalidity at) =
    mark_folder_verified-Safe account folder uidvalidity at
perform-Safe (mark_uids account folder uidvalidity uids at) =
    mark_uids_verified-Safe account folder uidvalidity uids at
perform-Safe (delete_ref account folder uid) = delete_by_message_ref-Safe account folder uid
perform-Safe (delete_folder account folder) = delete_by_folder-Safe account folder
perform-Safe (delete_missing account folder keep) =
    delete_missing_by_uid_set-Safe account folder keep
perform-Safe (delete_missing_in_range account folder keep min_uid max_uid) =
    delete_missing_by_uid_set_in_range-Safe account folder keep min_uid max_uid
perform-Safe (put_state fs) = upsert_folder_state-Safe fs
perform-Safe (expire ttl) = cleanup_expired-Safe ttl

-- After any calls of the writing methods but DeleteAll, each of them with success or with an error,
-- consistent tables are consistent: the search index has exactly the texts of the messages, no public id
-- has two messages, and no two messages have the same account, folder, UIDVALIDITY and UID.
pub run-IsConsistent :
    (writes : List Write) (r : Repository)
    → IsConsistent r.tables
    → IsConsistent (run writes r).tables
unfolding run
run-IsConsistent [] r v = v
run-IsConsistent (w ∷ ws) r v = run-IsConsistent ws (perform w r).1 ((perform-Safe w).at r v)
