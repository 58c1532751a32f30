-- ===== src/Cache/Contents.antt =====
-- internal/cache/cache.go: the content of the stored rows under the writing methods of Repository.
use ksuite_mail.Common.{
  ℕ, ◌≡◌, refl, subst, sym, same→eq, Bool, true, ◌&&◌, Bool-cases, ok_injective, inl, inr, Option,
  none, some, List, [], ◌∷◌, ◌++◌, Result, ok, err, All, retain, any, ltb, ◌==◌, Text,
}
use ksuite_mail.Mail.{CachedMessage}
use ksuite_mail.Actions.Keeps.{Keeps, Keeps-pure, Keeps-if, Keeps-bind, Keeps-then, Keeps-for_each}
use ksuite_mail.Cache.Tables.{
  Tables, FtsRow, FolderState, DbError, constraint, has_id, at_address, in_folder, update_where,
  upsert_row, merge, delete_fts,
}
use ksuite_mail.Cache.Session.{Repository, Db, in_tx}
use ksuite_mail.Cache.Reads.{list_uids_for_folder}
use ksuite_mail.Cache.Writes.{
  stamped, with_messages, exec_messages, exec_fts, exec_state, upsert_body, upsert_message,
  mark_folder_verified, mark_uid_verified, mark_uids_verified, delete_pair, delete_found, row_at,
  delete_by_message_ref, delete_folder_body, delete_by_folder, delete_uids_unless,
  delete_missing_by_uid_set, delete_missing_by_uid_set_in_range, upsert_folder_state, ids_in,
}
use ksuite_mail.Cache.Rules.{OfTables, query-Keeps, exec-Keeps, in_tx-Keeps}

-- The public id of a row and the columns that come from the message and from the policy.
pub record Content : Type 0 where
  pub id : Text
  pub message_id : Text
  pub thread_key : Text
  pub subject : Text
  pub from : Text
  pub to : Text
  pub cc : Text
  pub bcc : Text
  pub date : ℕ
  pub flags : Text
  pub has_attachments : Bool
  pub snippet : Text
  pub body_text : Text
  pub visible_reason : Text
  pub content_hash : Text

abbrev pub content : CachedMessage → Content
content row = record {
  id = row.id;
  message_id = row.message_id;
  thread_key = row.thread_key;
  subject = row.subject;
  from = row.from;
  to = row.to;
  cc = row.cc;
  bcc = row.bcc;
  date = row.date;
  flags = row.flags;
  has_attachments = row.has_attachments;
  snippet = row.snippet;
  body_text = row.body_text;
  visible_reason = row.visible_reason;
  content_hash = row.content_hash;
}

abbrev pub Contents : (Content → Type 0) → List CachedMessage → Type 0
Contents Q rows = All (λ row. Q (content row)) rows

-- `Q` holds of the content of each row.
abbrev pub AllContents : (Content → Type 0) → Tables → Type 0
AllContents Q t = Contents Q t.messages

module _ (Q : Content → Type 0) where
  Contents-retain :
      (test : CachedMessage → Bool) (rows : List CachedMessage)
      → Contents Q rows
      → Contents Q (retain test rows)
  Contents-retain test [] h = h
  Contents-retain test (x ∷ xs) (q, h) = elim (Bool-cases (test x)) [
    | inl e ↦ rw e (q, Contents-retain test xs h)
    | inr e ↦ rw e (Contents-retain test xs h)
  ]

  Contents-append :
      (rows : List CachedMessage) (msg : CachedMessage)
      → Contents Q rows
      → Q (content msg)
      → Contents Q (rows ++ msg ∷ [])
  Contents-append [] msg h q = (q, tt)
  Contents-append (x ∷ xs) msg (q', h) q = (q', Contents-append xs msg h q)

  Contents-update_where :
      (test : CachedMessage → Bool) (f : CachedMessage → CachedMessage) (rows : List CachedMessage)
      → ((x : CachedMessage) → test x ≡ true → Q (content x) → Q (content (f x)))
      → Contents Q rows
      → Contents Q (update_where test f rows)
  unfolding update_where
  Contents-update_where test f [] s h = h
  Contents-update_where test f (x ∷ xs) s (q, h) = elim (Bool-cases (test x)) [
    | inl e ↦ rw e (s x e q, Contents-update_where test f xs s h)
    | inr e ↦ rw e (q, Contents-update_where test f xs s h)
  ]

  Contents-upsert_row :
      (msg : CachedMessage) (rows rows' : List CachedMessage)
      → Q (content msg)
      → Contents Q rows
      → upsert_row msg rows ≡ ok rows'
      → Contents Q rows'
  unfolding upsert_row
  Contents-upsert_row msg rows rows' q h e = elim (Bool-cases (any (has_id msg.id) rows)) [
    | inl old ↦ subst (Contents Q) (ok_injective (rw old at e)) (
        Contents-update_where (has_id msg.id) (λ x. merge x msg) rows
          (λ x e _.
            subst (λ k. Q (record (content msg) { id = k })) (sym (same→eq x.id msg.id e)) q)
          h)
    | inr new ↦ elim (Bool-cases (any (at_address msg) rows)) [
      | inl taken ↦ absurd (refused (rw (new, taken) at e))
      | inr free ↦
          subst (Contents Q) (ok_injective (rw (new, free) at e)) (Contents-append rows msg h q)
    ]
  ]
    where
      refused : ◌≡◌ {A = Result DbError (List CachedMessage)} (err constraint) (ok rows') → ⊥
      refused h = cc

  -- Statements that write no content.
  exec_messages-Keeps :
      (f : List CachedMessage → List CachedMessage)
      → ((rows : List CachedMessage) → Contents Q rows → Contents Q (f rows))
      → Keeps (OfTables (AllContents Q)) (exec_messages f)
  exec_messages-Keeps f s =
      exec-Keeps (AllContents Q) _
        λ t t' h e. subst (AllContents Q) (ok_injective e) (s t.messages h)

  update-Keeps :
      (test : CachedMessage → Bool) (f : CachedMessage → CachedMessage)
      → ((x : CachedMessage) → test x ≡ true → Q (content x) → Q (content (f x)))
      → Keeps (OfTables (AllContents Q)) (exec_messages (update_where test f))
  update-Keeps test f s = exec_messages-Keeps _ λ rows. Contents-update_where test f rows s

  exec_fts-Keeps : (f : List FtsRow → List FtsRow) → Keeps (OfTables (AllContents Q)) (exec_fts f)
  exec_fts-Keeps f =
      exec-Keeps (AllContents Q) _ λ t t' h e. subst (AllContents Q) (ok_injective e) h

  exec_state-Keeps :
      (f : List FolderState → List FolderState) → Keeps (OfTables (AllContents Q)) (exec_state f)
  exec_state-Keeps f =
      exec-Keeps (AllContents Q) _ λ t t' h e. subst (AllContents Q) (ok_injective e) h

  tx-Keeps :
      {A : Type 0} (body : Db A)
      → Keeps (OfTables (AllContents Q)) body
      → Keeps (OfTables (AllContents Q)) (in_tx body)
  tx-Keeps body kb = in_tx-Keeps body (AllContents Q) λ r a h o. kb.at r h

  with_messages-step :
      (t t' : Tables) (res : Result DbError (List CachedMessage))
      → ((rows : List CachedMessage) → res ≡ ok rows → Contents Q rows)
      → with_messages t res ≡ ok t'
      → AllContents Q t'
  with_messages-step t t' (ok rows) s e = subst (AllContents Q) (ok_injective e) (s rows refl)
  with_messages-step t t' (err x) s e = cc

  pub upsert_message-Keeps :
      (msg : CachedMessage)
      → Q (content msg)
      → Keeps (OfTables (AllContents Q)) (upsert_message msg)
  unfolding upsert_message upsert_body
  upsert_message-Keeps msg q = record { at = λ r h. (tx-Keeps _ (body-Keeps r)).at r h }
    where
      body-Keeps :
          (r : Repository) → Keeps (OfTables (AllContents Q)) (upsert_body (stamped r.now msg))
      body-Keeps r =
          Keeps-then _ _
            (exec-Keeps (AllContents Q) _ λ t t' h e.
              with_messages-step t t' _ (λ rows o. Contents-upsert_row _ t.messages rows q h o) e)
            (Keeps-then _ _ (exec_fts-Keeps _) (exec_fts-Keeps _))

  delete_found-Keeps :
      (found : Option CachedMessage) → Keeps (OfTables (AllContents Q)) (delete_found found)
  unfolding delete_pair
  delete_found-Keeps none = Keeps-pure tt
  delete_found-Keeps (some row) =
      Keeps-then _ _ (exec_messages-Keeps _ (Contents-retain _)) (exec_fts-Keeps _)

  pub delete_by_message_ref-Keeps :
      (account folder : Text) (uid : ℕ)
      → Keeps (OfTables (AllContents Q)) (delete_by_message_ref account folder uid)
  unfolding delete_by_message_ref
  delete_by_message_ref-Keeps account folder uid =
      tx-Keeps _ (
        Keeps-bind _ _ (query-Keeps (AllContents Q) (row_at account folder uid)) delete_found-Keeps)

  pub delete_by_folder-Keeps :
      (account folder : Text) → Keeps (OfTables (AllContents Q)) (delete_by_folder account folder)
  unfolding delete_by_folder delete_folder_body
  delete_by_folder-Keeps account folder = tx-Keeps _ (
      Keeps-bind _ _ (query-Keeps (AllContents Q) (ids_in account folder)) λ ids.
        Keeps-then _ _ (exec_messages-Keeps _ (Contents-retain _))
          (Keeps-for_each tt _ ids λ i. exec_fts-Keeps (delete_fts i)))

  delete_uids_unless-Keeps :
      (account folder : Text) (stays : ℕ → Bool)
      → Keeps (OfTables (AllContents Q)) (delete_uids_unless account folder stays)
  unfolding delete_uids_unless list_uids_for_folder
  delete_uids_unless-Keeps account folder stays =
      Keeps-bind _ _ (query-Keeps (AllContents Q) _) λ uids. Keeps-for_each tt _ uids λ uid.
        Keeps-if (stays uid) _ _ (Keeps-pure tt) (delete_by_message_ref-Keeps account folder uid)

  pub delete_missing_by_uid_set-Keeps :
      (account folder : Text) (keep : List ℕ)
      → Keeps (OfTables (AllContents Q)) (delete_missing_by_uid_set account folder keep)
  unfolding delete_missing_by_uid_set
  delete_missing_by_uid_set-Keeps account folder keep = delete_uids_unless-Keeps account folder _

  pub delete_missing_by_uid_set_in_range-Keeps :
      (account folder : Text) (keep : List ℕ) (min_uid max_uid : ℕ)
      → Keeps
          (OfTables (AllContents Q))
          (delete_missing_by_uid_set_in_range account folder keep min_uid max_uid)
  unfolding delete_missing_by_uid_set_in_range
  delete_missing_by_uid_set_in_range-Keeps account folder keep min_uid max_uid =
      Keeps-if (ltb max_uid min_uid) _ _ (Keeps-pure tt) (delete_uids_unless-Keeps account folder _)

  pub mark_folder_verified-Keeps :
      (account folder : Text) (uidvalidity checked_at : ℕ)
      → Keeps
          (OfTables (AllContents Q))
          (mark_folder_verified account folder uidvalidity checked_at)
  unfolding mark_folder_verified
  mark_folder_verified-Keeps account folder uidvalidity checked_at =
      update-Keeps (λ row. in_folder account folder row && row.uidvalidity == uidvalidity)
        (λ row. record row { last_loaded_or_checked = checked_at }) λ x e q. q

  mark_uid_verified-Keeps :
      (account folder : Text) (uidvalidity checked_at uid : ℕ)
      → Keeps
          (OfTables (AllContents Q))
          (mark_uid_verified account folder uidvalidity checked_at uid)
  unfolding mark_uid_verified
  mark_uid_verified-Keeps account folder uidvalidity checked_at uid =
      update-Keeps
        (λ row. in_folder account folder row && row.uidvalidity == uidvalidity && row.uid == uid)
        (λ row. record row { last_loaded_or_checked = checked_at }) λ x e q. q

  pub mark_uids_verified-Keeps :
      (account folder : Text) (uidvalidity : ℕ) (uids : List ℕ) (checked_at : ℕ)
      → Keeps
          (OfTables (AllContents Q))
          (mark_uids_verified account folder uidvalidity uids checked_at)
  unfolding mark_uids_verified
  mark_uids_verified-Keeps account folder uidvalidity uids checked_at =
      Keeps-for_each tt _ uids (mark_uid_verified-Keeps account folder uidvalidity checked_at)

  pub upsert_folder_state-Keeps :
      (fs : FolderState) → Keeps (OfTables (AllContents Q)) (upsert_folder_state fs)
  unfolding upsert_folder_state
  upsert_folder_state-Keeps fs = record { at = λ r h. (exec_state-Keeps _).at r h }
