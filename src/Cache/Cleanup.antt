-- ===== src/Cache/Cleanup.antt =====
-- internal/cache/cache.go: CleanupExpired, which drops the rows that were last loaded or checked
-- before a threshold, and the state of each folder that it leaves without rows.
use ksuite_mail.Common.{
  ℕ, ◌-◌, Bool, ◌&&◌, Option, none, some, List, [], ◌∷◌, ◌++◌, ok, err, ltb, ◌==◌, if◌then◌else◌,
  retain, Text, contains_text, length,
}
use ksuite_mail.Common.Ints.{ℤ, pos_part, positive}
use ksuite_mail.Strings.{is_empty}
use ksuite_mail.Mail.{CachedMessage}
use ksuite_mail.Actions.{pure, ◌>>=◌, ◌>>◌, for_each}
use ksuite_mail.Cache.Stamp.{stamp, text_lt}
use ksuite_mail.Cache.Tables.{fault, has_id, in_folder, delete_where, delete_fts, delete_state}
use ksuite_mail.Cache.Session.{Db, draw, query, in_tx}
use ksuite_mail.Cache.Reads.{sort_by}
use ksuite_mail.Cache.Writes.{exec_fts, exec_state}

-- last_loaded_or_verified_at < threshold, as texts.
unfoldable pub is_expired : ℕ → CachedMessage → Bool
is_expired threshold row = text_lt (stamp row.last_loaded_or_checked) (stamp threshold)

-- DELETE FROM messages WHERE test, with the number of rows that it took.
unfoldable pub exec_delete : (CachedMessage → Bool) → Db ℕ
exec_delete test r =
    let (bad, rest) = draw r.faults in
    if bad then (err fault, record r { faults = rest }) else (
      ok (length (retain test r.messages)),
      record r {
        tables = record r.tables { messages = delete_where test r.messages };
        faults = rest;
      },
    )

-- row.accountID+"\x00"+row.folder, and the two parts of such a key.
abbrev pub folder_key : CachedMessage → Text
folder_key row = row.account_id ++ 0 ∷ row.folder

abbrev pub prepend_first : ℕ → Option (Text × Text) → Option (Text × Text)
prepend_first r none = none
prepend_first r (some (a, f)) = some (r ∷ a, f)

unfoldable pub split_key : Text → Option (Text × Text)
split_key [] = none
split_key (r ∷ rs) =
    let rest = split_key rs in if r == 0 then some ([], rs) else prepend_first r rest

abbrev pub add_key : Text → List Text → List Text
add_key k ks = if contains_text k ks then ks else ks ++ k ∷ []

abbrev pub delete_expired_row : ℕ → CachedMessage → List Text → Db (List Text)
delete_expired_row threshold row keys = do
  affected ← exec_delete (λ x. has_id row.id x && is_expired threshold x)
  if affected == 0
      then pure keys
      else (exec_fts (delete_fts row.id) >> pure (add_key (folder_key row) keys))

-- The loop over the expired rows; it returns the keys of the folders that lost a row.
unfoldable pub delete_expired : ℕ → List CachedMessage → List Text → Db (List Text)
unfolding ◌>>=◌ ◌>>◌ exec_delete is_expired
delete_expired threshold [] keys = pure keys
delete_expired threshold (row ∷ rows) keys =
    delete_expired_row threshold row keys >>= delete_expired threshold rows

abbrev pub drop_state_if_empty : Option (Text × Text) → Db (Unit {0})
drop_state_if_empty none = pure tt
drop_state_if_empty (some (account, folder)) = do
  retained ← query λ t. length (retain (in_folder account folder) t.messages)
  if ltb 0 retained then pure tt else exec_state (delete_state account folder)

unfoldable pub cleanup_body : ℕ → List CachedMessage → Db (Unit {0})
unfolding ◌>>=◌ delete_expired for_each split_key
cleanup_body threshold expired = do
  keys ← delete_expired threshold expired []
  for_each tt (λ key. drop_state_if_empty (split_key key)) keys

unfoldable pub id_lt : CachedMessage → CachedMessage → Bool
id_lt a b = text_lt a.id b.id

unfoldable pub cleanup_from : ℕ → Db (Unit {0})
unfolding ◌>>=◌ cleanup_body sort_by id_lt in_tx is_expired
cleanup_from threshold = do
  expired ← query λ t. retain (is_expired threshold) t.messages
  if is_empty expired then pure tt else in_tx (cleanup_body threshold (sort_by id_lt expired))

-- A ttl of 0 or less, in nanoseconds, keeps everything.
unfoldable pub cleanup_expired : ℤ → Db (Unit {0})
unfolding cleanup_from
cleanup_expired ttl r = if positive ttl then cleanup_from (r.now - pos_part ttl) r else (ok tt, r)
