-- ===== src/Cache/Invariant.antt =====
-- internal/cache/cache.go: the consistency of the tables under the writing methods of Repository.
use ksuite_mail.Common.{
  ℕ, ◌≡◌, refl, sym, subst, Bool, List, [], ◌∷◌, ◌++◌, arith, Result, ok, err, Option, none, some,
  Text,
}
use ksuite_mail.Mail.{CachedMessage}
use ksuite_mail.Actions.{pure, ◌>>=◌, ◌>>◌}
use ksuite_mail.Actions.Keeps.{Keeps, keeps_rules, Keeps-for_each, Keeps-bind, Keeps-if, Keeps-pure}
use ksuite_mail.Cache.Tables.{
  Tables, FtsRow, FolderState, DbError, has_id, at_address, delete_where, update_where, upsert_row,
  fts_row, delete_fts,
}
use ksuite_mail.Cache.Session.{Repository, Db, exec, query}
use ksuite_mail.Cache.Reads.{list_uids_for_folder}
use ksuite_mail.Cache.Writes.{
  stamped, with_messages, exec_messages, exec_fts, exec_state, upsert_body, upsert_message,
  mark_folder_verified, mark_uid_verified, mark_uids_verified, delete_pair, delete_found, row_at,
  delete_by_message_ref, delete_uids_unless, delete_missing_by_uid_set,
  delete_missing_by_uid_set_in_range, upsert_folder_state,
}
use ksuite_mail.Cache.Rules.{
  OfTables, then-ok, bind-ok, exec-ok, query-ok, query-Keeps, exec-Keeps, in_tx-Keeps,
}
use ksuite_mail.Cache.Consistent.{
  IsConsistent, delete_pair-IsConsistent, update-IsConsistent, upsert_row-IsConsistent,
}

abbrev pub Safe : {A : Type 0} → Db A → Type 0
Safe m = Keeps (OfTables IsConsistent) m

-- What a statement on one table leaves.
pub exec_messages-ok :
    (f : List CachedMessage → List CachedMessage) (r : Repository) (u : Unit {0})
    → (exec_messages f r).0 ≡ ok u
    → (exec_messages f r).1.tables ≡ record r.tables { messages = f r.tables.messages }
exec_messages-ok f r u h =
    ground (arith, exec-ok (λ t. ok (record t { messages = f t.messages })) r u h)

pub exec_fts-ok :
    (f : List FtsRow → List FtsRow) (r : Repository) (u : Unit {0})
    → (exec_fts f r).0 ≡ ok u
    → (exec_fts f r).1.tables ≡ record r.tables { messages_fts = f r.tables.messages_fts }
exec_fts-ok f r u h =
    ground (arith, exec-ok (λ t. ok (record t { messages_fts = f t.messages_fts })) r u h)

with_messages-ok :
    (t t' : Tables) (res : Result DbError (List CachedMessage))
    → with_messages t res ≡ ok t'
    → (rows : List CachedMessage) × (res ≡ ok rows) × (t' ≡ record t { messages = rows })
with_messages-ok t t' (ok rows) h = (rows, refl, ground arith)
with_messages-ok t t' (err e) h = cc

-- The tables that UpsertMessage's three statements leave.
pub upsert_body-ok :
    (msg : CachedMessage) (r : Repository) (u : Unit {0})
    → (upsert_body msg r).0 ≡ ok u
    → (rows : List CachedMessage) × (upsert_row msg r.tables.messages ≡ ok rows)
      × ((upsert_body msg r).1.tables ≡ record r.tables {
        messages = rows;
        messages_fts = delete_fts msg.id r.tables.messages_fts ++ fts_row msg ∷ [];
      })
unfolding upsert_body
upsert_body-ok msg r u h =
    let put : Db (Unit {0}) = exec (λ t. with_messages t (upsert_row msg t.messages)) in
    let clear : Db (Unit {0}) = exec_fts (delete_fts msg.id) in
    let index : Db (Unit {0}) = exec_fts (λ rows. rows ++ fts_row msg ∷ []) in
    let (a, p, q, e) = then-ok put (clear >> index) r u h in
    let (b, p', q', e') = then-ok clear index (put r).1 u q in
    let (rows, o, w) =
      with_messages-ok r.tables _ _
        (exec-ok (λ t. with_messages t (upsert_row msg t.messages)) r a p) in
    (
      rows,
      o,
      rw (
        ← e,
        ← e',
        exec_fts-ok (λ rows. rows ++ fts_row msg ∷ []) _ u q',
        exec_fts-ok (delete_fts msg.id) _ b p',
        w,
      ),
    )

delete_pair-ok :
    (k : Text) (r : Repository) (u : Unit {0})
    → (delete_pair k r).0 ≡ ok u
    → (delete_pair k r).1.tables ≡ record r.tables {
      messages = delete_where (has_id k) r.tables.messages;
      messages_fts = delete_fts k r.tables.messages_fts;
    }
unfolding delete_pair
delete_pair-ok k r u h =
    let (a, p, q, e) =
      then-ok (exec_messages (delete_where (has_id k))) (exec_fts (delete_fts k)) r u h in
    rw (← e, exec_fts-ok (delete_fts k) _ u q, exec_messages-ok (delete_where (has_id k)) r a p)

-- UpsertMessage.
pub upsert_message-Safe : (msg : CachedMessage) → Safe (upsert_message msg)
unfolding upsert_message
upsert_message-Safe msg = record {
  at = λ r v.
      (in_tx-Keeps (upsert_body (stamped r.now msg)) IsConsistent λ r' u v' h.
          let (rows, o, e) = upsert_body-ok (stamped r.now msg) r' u h in
          rw e (upsert_row-IsConsistent r'.tables v' (stamped r.now msg) rows o)).at
        r v;
}

update-Safe :
    (test : CachedMessage → Bool) (f : CachedMessage → CachedMessage)
    → ((x : CachedMessage) → fts_row (f x) ≡ fts_row x)
    → ((msg x : CachedMessage) → at_address msg (f x) ≡ at_address msg x)
    → Safe (exec_messages (update_where test f))
update-Safe test f same_row same_place = exec-Keeps IsConsistent _ λ t t' v h.
    subst IsConsistent (ground arith) (update-IsConsistent t v test f same_row same_place)

pub mark_folder_verified-Safe :
    (account folder : Text) (uidvalidity checked_at : ℕ)
    → Safe (mark_folder_verified account folder uidvalidity checked_at)
unfolding mark_folder_verified
mark_folder_verified-Safe account folder uidvalidity checked_at =
    update-Safe _ _ (λ x. refl) (λ msg x. refl)

mark_uid_verified-Safe :
    (account folder : Text) (uidvalidity checked_at uid : ℕ)
    → Safe (mark_uid_verified account folder uidvalidity checked_at uid)
unfolding mark_uid_verified
mark_uid_verified-Safe account folder uidvalidity checked_at uid =
    update-Safe _ _ (λ x. refl) (λ msg x. refl)

pub mark_uids_verified-Safe :
    (account folder : Text) (uidvalidity : ℕ) (uids : List ℕ) (checked_at : ℕ)
    → Safe (mark_uids_verified account folder uidvalidity uids checked_at)
unfolding mark_uids_verified
mark_uids_verified-Safe account folder uidvalidity uids checked_at =
    Keeps-for_each tt _ uids (mark_uid_verified-Safe account folder uidvalidity checked_at)

delete_pair-step :
    (k : Text) (r : Repository) (u : Unit {0})
    → IsConsistent r.tables
    → (delete_pair k r).0 ≡ ok u
    → IsConsistent (delete_pair k r).1.tables
delete_pair-step k r u v h = rw (delete_pair-ok k r u h) (delete_pair-IsConsistent r.tables v k)

delete_found-step :
    (found : Option CachedMessage) (r : Repository) (u : Unit {0})
    → IsConsistent r.tables
    → (delete_found found r).0 ≡ ok u
    → IsConsistent (delete_found found r).1.tables
delete_found-step none r u v h = v
delete_found-step (some row) r u v h = delete_pair-step row.id r u v h

pub delete_by_message_ref-Safe :
    (account folder : Text) (uid : ℕ) → Safe (delete_by_message_ref account folder uid)
unfolding delete_by_message_ref
delete_by_message_ref-Safe account folder uid =
    in_tx-Keeps (query (row_at account folder uid) >>= delete_found) IsConsistent λ r u v h.
      let (found, p, q, e) = bind-ok (query (row_at account folder uid)) delete_found r u h in
      let (_, t) = query-ok (row_at account folder uid) r found p in
      subst (λ (x : Repository). IsConsistent x.tables) e
        (delete_found-step found (query (row_at account folder uid) r).1 u
          (subst IsConsistent (sym t) v) q)

delete_uids_unless-Safe :
    (account folder : Text) (stays : ℕ → Bool) → Safe (delete_uids_unless account folder stays)
unfolding delete_uids_unless list_uids_for_folder
delete_uids_unless-Safe account folder stays = Keeps-bind _ _ (query-Keeps IsConsistent _) λ uids.
    Keeps-for_each tt _ uids λ uid.
      Keeps-if (stays uid) (pure tt) (delete_by_message_ref account folder uid) (Keeps-pure tt)
        (delete_by_message_ref-Safe account folder uid)

pub delete_missing_by_uid_set-Safe :
    (account folder : Text) (keep : List ℕ) → Safe (delete_missing_by_uid_set account folder keep)
unfolding delete_missing_by_uid_set
delete_missing_by_uid_set-Safe account folder keep = delete_uids_unless-Safe account folder _

pub delete_missing_by_uid_set_in_range-Safe :
    (account folder : Text) (keep : List ℕ) (min_uid max_uid : ℕ)
    → Safe (delete_missing_by_uid_set_in_range account folder keep min_uid max_uid)
unfolding delete_missing_by_uid_set_in_range
delete_missing_by_uid_set_in_range-Safe account folder keep min_uid max_uid =
    search (keeps_rules, delete_uids_unless-Safe)

pub exec_state-Safe : (f : List FolderState → List FolderState) → Safe (exec_state f)
exec_state-Safe f =
    exec-Keeps IsConsistent _ λ t t' v h. subst IsConsistent (ground arith) (same_messages t v)
  where
    same_messages :
        (t : Tables) → IsConsistent t → IsConsistent (record t { folder_state = f t.folder_state })
    same_messages t v = record { indexed = v.indexed; unique = v.unique; addressed = v.addressed }

pub upsert_folder_state-Safe : (fs : FolderState) → Safe (upsert_folder_state fs)
unfolding upsert_folder_state
upsert_folder_state-Safe fs = record { at = λ r v. (exec_state-Safe _).at r v }
