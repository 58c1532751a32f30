-- ===== src/Cache/Tables.antt =====
-- internal/cache/cache.go: the tables of the schema, and the statements on them. The columns id and
-- updated_at of messages are left out: nothing reads them. A row of folder_state has the fields of
-- the struct FolderState.
use ksuite_mail.Common.{
  ℕ, Bool, not, ◌&&◌, Option, List, [], ◌∷◌, ◌++◌, Result, ok, err, ◌==◌, if◌then◌else◌, retain,
  any, Text, same,
}
use ksuite_mail.Common.Ints.{ℤ}
use ksuite_mail.Mail.{CachedMessage}

pub record FtsRow : Type 0 where
  pub public_id : Text
  pub subject : Text
  pub from_text : Text
  pub to_text : Text
  pub cc_text : Text
  pub bcc_text : Text
  pub snippet : Text
  pub body_text : Text

pub record FolderState : Type 0 where
  pub account_id : Text
  pub folder : Text
  pub uidvalidity : ℕ
  pub uidnext : ℕ
  pub highest_mod_seq : ℤ
  pub last_seen_uid : ℕ
  pub policy_fingerprint : Text
  pub last_refresh_attempted : Option ℕ
  pub last_successful_refresh : Option ℕ

pub record Tables : Type 0 where
  pub messages : List CachedMessage
  pub messages_fts : List FtsRow
  pub folder_state : List FolderState

pub data DbError : Type 0 where
  -- The driver reports an error, or a unique index refuses a row.
  fault constraint : DbError

abbrev pub has_id : Text → CachedMessage → Bool
has_id k row = same row.id k

abbrev pub in_folder : Text → Text → CachedMessage → Bool
in_folder account folder row = same row.account_id account && same row.folder folder

-- The columns of the index messages_account_folder_uid.
abbrev pub at_address : CachedMessage → CachedMessage → Bool
at_address msg row =
    same row.account_id msg.account_id
    && same row.folder msg.folder
    && row.uidvalidity == msg.uidvalidity
    && row.uid == msg.uid

-- DELETE FROM messages WHERE test
abbrev pub delete_where : (CachedMessage → Bool) → List CachedMessage → List CachedMessage
delete_where test rows = retain (λ row. not (test row)) rows

-- UPDATE messages SET ... WHERE test
unfoldable pub update_where :
    (CachedMessage → Bool)
    → (CachedMessage → CachedMessage)
    → List CachedMessage
    → List CachedMessage
update_where test f [] = []
update_where test f (row ∷ rows) = (if test row then f row else row) ∷ update_where test f rows

-- The row that INSERT ... ON CONFLICT(public_id) DO UPDATE leaves: the identity and the time of the
-- first load stay.
abbrev pub merge : CachedMessage → CachedMessage → CachedMessage
merge old new = record new {
  id = old.id;
  account_id = old.account_id;
  folder = old.folder;
  uidvalidity = old.uidvalidity;
  uid = old.uid;
  first_loaded_at = old.first_loaded_at;
}

unfoldable pub upsert_row : CachedMessage → List CachedMessage → Result DbError (List CachedMessage)
unfolding update_where
upsert_row msg rows =
    if any (has_id msg.id) rows
    then ok (update_where (has_id msg.id) (λ old. merge old msg) rows)
    else if any (at_address msg) rows
    then err constraint
    else ok (rows ++ msg ∷ [])

-- The row of messages_fts for a message; the Bcc column is always empty.
abbrev pub fts_row : CachedMessage → FtsRow
fts_row msg = record {
  public_id = msg.id;
  subject = msg.subject;
  from_text = msg.from;
  to_text = msg.to;
  cc_text = msg.cc;
  bcc_text = [];
  snippet = msg.snippet;
  body_text = msg.body_text;
}

-- DELETE FROM messages_fts WHERE public_id = ?
abbrev pub delete_fts : Text → List FtsRow → List FtsRow
delete_fts k rows = retain (λ row. not (same row.public_id k)) rows

abbrev pub is_state_of : Text → Text → FolderState → Bool
is_state_of account folder fs = same fs.account_id account && same fs.folder folder

-- INSERT INTO folder_state ... ON CONFLICT(account_id, folder) DO UPDATE, which sets every other
-- column.
unfoldable pub upsert_state : FolderState → List FolderState → List FolderState
upsert_state fs [] = fs ∷ []
upsert_state fs (x ∷ xs) =
    if is_state_of fs.account_id fs.folder x then fs ∷ xs else x ∷ upsert_state fs xs

-- DELETE FROM folder_state WHERE account_id=? AND folder=?
abbrev pub delete_state : Text → Text → List FolderState → List FolderState
delete_state account folder states = retain (λ fs. not (is_state_of account folder fs)) states
