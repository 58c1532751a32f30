-- ===== src/Cache/Writes.antt =====
-- internal/cache/cache.go: the methods of Repository that write. A Go set of UIDs is a list, read by
-- `has_uid`; the order in which Go walks over it is left open, as the list's.
use ksuite_mail.Common.{
  ℕ, Bool, ◌&&◌, ◌||◌, Option, none, some, List, [], ◌∷◌, ◌++◌, map, Result, ok, err, ltb, ◌==◌,
  if◌then◌else◌, retain, any, Text,
}
use ksuite_mail.Mail.{CachedMessage}
use ksuite_mail.Actions.{pure, ◌>>=◌, ◌>>◌, for_each}
use ksuite_mail.Cache.Tables.{
  Tables, FtsRow, FolderState, DbError, has_id, in_folder, delete_where, update_where, upsert_row,
  fts_row, delete_fts, upsert_state,
}
use ksuite_mail.Cache.Session.{Db, exec, query, in_tx}
use ksuite_mail.Cache.Reads.{head?, list_uids_for_folder}

abbrev pub has_uid : List ℕ → ℕ → Bool
has_uid uids uid = any (λ u. u == uid) uids

-- The zero time stands for an unset one.
abbrev pub or_now : ℕ → ℕ → ℕ
or_now now t = if t == 0 then now else t

-- The row that UpsertMessage writes.
abbrev pub stamped : ℕ → CachedMessage → CachedMessage
stamped now msg = record msg {
  first_loaded_at = or_now now msg.first_loaded_at;
  last_loaded_or_checked = or_now now msg.last_loaded_or_checked;
}

abbrev pub with_messages : Tables → Result DbError (List CachedMessage) → Result DbError Tables
with_messages t (ok rows) = ok (record t { messages = rows })
with_messages t (err e) = err e

abbrev pub exec_messages : (List CachedMessage → List CachedMessage) → Db (Unit {0})
exec_messages f = exec λ t. ok (record t { messages = f t.messages })

abbrev pub exec_fts : (List FtsRow → List FtsRow) → Db (Unit {0})
exec_fts f = exec λ t. ok (record t { messages_fts = f t.messages_fts })

abbrev pub exec_state : (List FolderState → List FolderState) → Db (Unit {0})
exec_state f = exec λ t. ok (record t { folder_state = f t.folder_state })

-- The three statements inside UpsertMessage's transaction.
unfoldable pub upsert_body : CachedMessage → Db (Unit {0})
unfolding ◌>>◌ upsert_row
upsert_body msg = do
  exec λ t. with_messages t (upsert_row msg t.messages)
  exec_fts (delete_fts msg.id)
  exec_fts (λ rows. rows ++ fts_row msg ∷ [])

unfoldable pub upsert_message : CachedMessage → Db (Unit {0})
unfolding upsert_body in_tx
upsert_message msg r = in_tx (upsert_body (stamped r.now msg)) r

unfoldable pub mark_folder_verified : Text → Text → ℕ → ℕ → Db (Unit {0})
unfolding update_where
mark_folder_verified account folder uidvalidity checked_at = exec_messages (
    update_where (λ row. in_folder account folder row && row.uidvalidity == uidvalidity)
      (λ row. record row { last_loaded_or_checked = checked_at }))

unfoldable pub mark_uid_verified : Text → Text → ℕ → ℕ → ℕ → Db (Unit {0})
unfolding update_where
mark_uid_verified account folder uidvalidity checked_at uid = exec_messages (
    update_where
      (λ row. in_folder account folder row && row.uidvalidity == uidvalidity && row.uid == uid)
      (λ row. record row { last_loaded_or_checked = checked_at }))

unfoldable pub mark_uids_verified : Text → Text → ℕ → List ℕ → ℕ → Db (Unit {0})
unfolding mark_uid_verified for_each
mark_uids_verified account folder uidvalidity uids checked_at =
    for_each tt (mark_uid_verified account folder uidvalidity checked_at) uids

-- The deletion of one row with its row of messages_fts.
unfoldable pub delete_pair : Text → Db (Unit {0})
unfolding ◌>>◌
delete_pair k = do exec_messages (delete_where (has_id k)); exec_fts (delete_fts k)

abbrev pub delete_found : Option CachedMessage → Db (Unit {0})
delete_found none = pure tt
delete_found (some row) = delete_pair row.id

abbrev pub row_at : Text → Text → ℕ → Tables → Option CachedMessage
row_at account folder uid t =
    head? (retain (λ row. in_folder account folder row && row.uid == uid) t.messages)

-- DeleteByMessageRef: the first row at the account, the folder and the UID, whatever its
-- UIDVALIDITY.
unfoldable pub delete_by_message_ref : Text → Text → ℕ → Db (Unit {0})
unfolding ◌>>=◌ in_tx query
delete_by_message_ref account folder uid =
    in_tx do found ← query (row_at account folder uid); delete_found found

abbrev pub ids_in : Text → Text → Tables → List Text
ids_in account folder t = map (λ row. row.id) (retain (in_folder account folder) t.messages)

unfoldable pub delete_folder_body : Text → Text → Db (Unit {0})
unfolding ◌>>=◌ ◌>>◌ for_each query
delete_folder_body account folder = do
  ids ← query (ids_in account folder)
  exec_messages (delete_where (in_folder account folder))
  for_each tt (λ k. exec_fts (delete_fts k)) ids

unfoldable pub delete_by_folder : Text → Text → Db (Unit {0})
unfolding delete_folder_body in_tx
delete_by_folder account folder = in_tx (delete_folder_body account folder)

abbrev pub delete_uid_unless : Text → Text → (ℕ → Bool) → ℕ → Db (Unit {0})
delete_uid_unless account folder stays uid =
    if stays uid then pure tt else delete_by_message_ref account folder uid

unfoldable pub delete_uids_unless : Text → Text → (ℕ → Bool) → Db (Unit {0})
unfolding ◌>>=◌ for_each
delete_uids_unless account folder stays = do
  local ← list_uids_for_folder account folder
  for_each tt (delete_uid_unless account folder stays) local

unfoldable pub delete_missing_by_uid_set : Text → Text → List ℕ → Db (Unit {0})
unfolding delete_uids_unless
delete_missing_by_uid_set account folder keep = delete_uids_unless account folder (has_uid keep)

unfoldable pub delete_missing_by_uid_set_in_range : Text → Text → List ℕ → ℕ → ℕ → Db (Unit {0})
unfolding delete_uids_unless
delete_missing_by_uid_set_in_range account folder keep min_uid max_uid =
    if ltb max_uid min_uid
    then pure tt
    else delete_uids_unless account folder
        (λ uid. ltb uid min_uid || ltb max_uid uid || has_uid keep uid)

abbrev pub attempted_or : ℕ → Option ℕ → Option ℕ
attempted_or now none = some now
attempted_or now (some t) = some t

unfoldable pub upsert_folder_state : FolderState → Db (Unit {0})
upsert_folder_state fs r =
    exec_state
      (upsert_state
        (record fs { last_refresh_attempted = attempted_or r.now fs.last_refresh_attempted }))
      r

-- DeleteAll is three statements and no transaction.
unfoldable pub delete_all : Db (Unit {0})
unfolding ◌>>◌
delete_all = do exec_messages (λ rows. []); exec_fts (λ rows. []); exec_state (λ states. [])
