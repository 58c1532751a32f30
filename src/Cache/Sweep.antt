-- ===== src/Cache/Sweep.antt =====
-- internal/cache/cache.go: the consistency of the tables under DeleteByFolder.
use ksuite_mail.Common.{
  ◌≤◌, ◌≡◌, refl, sym, ap, ◌∙◌, Bool, false, not, List, [], ◌∷◌, map, arith, if◌then◌else◌, ok,
  retain, length, Text, contains_text,
}
use ksuite_mail.Mail.{CachedMessage}
use ksuite_mail.Actions.{◌>>◌, for_each}
use ksuite_mail.Cache.Tables.{
  Tables, FtsRow, has_id, in_folder, at_address, delete_where, delete_fts,
}
use ksuite_mail.Cache.Session.{Repository, Db, query}
use ksuite_mail.Cache.Reads.{select_id}
use ksuite_mail.Cache.Writes.{exec_messages, exec_fts, ids_in, delete_folder_body, delete_by_folder}
use ksuite_mail.Cache.Rows.{select_fts, select_fts-delete_fts, length-retain-retain-le}
use ksuite_mail.Cache.Rules.{then-ok, bind-ok, query-ok, in_tx-Keeps}
use ksuite_mail.Cache.Consistent.{IsConsistent}
use ksuite_mail.Cache.Invariant.{Safe, exec_messages-ok, exec_fts-ok}

-- What the loop over the ids of a folder leaves of messages_fts.
unfoldable pub delete_many : List Text → List FtsRow → List FtsRow
delete_many [] rows = rows
delete_many (k ∷ ks) rows = delete_many ks (delete_fts k rows)

select_fts-delete_many :
    (ks : List Text) (k : Text) (rows : List FtsRow)
    → select_fts k (delete_many ks rows) ≡ (if contains_text k ks then [] else select_fts k rows)
unfolding delete_many contains_text
select_fts-delete_many [] k rows = refl
select_fts-delete_many (j ∷ js) k rows =
    ground (arith, select_fts-delete_many js k (delete_fts j rows), select_fts-delete_fts j k rows)

for_each-delete_fts :
    (ks : List Text) (r : Repository) (u : Unit {0})
    → (for_each tt (λ k. exec_fts (delete_fts k)) ks r).0 ≡ ok u
    → (for_each tt (λ k. exec_fts (delete_fts k)) ks r).1.tables
      ≡ record r.tables { messages_fts = delete_many ks r.tables.messages_fts }
unfolding for_each delete_many
for_each-delete_fts [] r u h = refl
for_each-delete_fts (k ∷ ks) r u h =
    let (a, p, q, e) =
      then-ok (exec_fts (delete_fts k)) (for_each tt (λ k. exec_fts (delete_fts k)) ks) r u h in
    let first = exec_fts-ok (delete_fts k) r a p in
    let rest = for_each-delete_fts ks _ u q in
    ap (λ (x : Repository). x.tables) (sym e)
    ∙ rest
    ∙ ap (λ (t : Tables). record t { messages_fts = delete_many ks t.messages_fts }) first

nil_of_length : {A : Type 0} (xs : List A) → length xs ≤ 0 → xs ≡ []
nil_of_length [] h = refl
nil_of_length (x ∷ xs) h = absurd (omega arith)

abbrev pub ids : List CachedMessage → List Text
ids rows = map (λ row. row.id) rows

no_id :
    (p : CachedMessage → Bool) (k : Text) (xs : List CachedMessage)
    → length (select_id k xs) ≤ 0
    → contains_text k (ids (retain p xs)) ≡ false
unfolding contains_text
no_id p k [] u = refl
no_id p k (x ∷ xs) u = ground (arith, no_id p k xs)

-- A deletion by any test, against the ids of the rows that it takes.
select_id-delete_where-ids :
    (p : CachedMessage → Bool) (k : Text) (rows : List CachedMessage)
    → length (select_id k rows) ≤ 1
    → select_id k (delete_where p rows)
      ≡ (if contains_text k (ids (retain p rows)) then [] else select_id k rows)
unfolding contains_text
select_id-delete_where-ids p k [] u = refl
select_id-delete_where-ids p k (x ∷ xs) u =
    ground (arith, select_id-delete_where-ids p k xs, no_id p k xs, nil_of_length (select_id k xs))

-- Rows go by a test, and their entries in messages_fts by their ids.
pub delete_rows-IsConsistent :
    (t : Tables) (p : CachedMessage → Bool)
    → IsConsistent t
    → IsConsistent (record t {
      messages = delete_where p t.messages;
      messages_fts = delete_many (ids (retain p t.messages)) t.messages_fts;
    })
delete_rows-IsConsistent t p v = record {
  indexed = λ k.
      rw
        (
          select_fts-delete_many (ids (retain p t.messages)) k t.messages_fts,
          select_id-delete_where-ids p k t.messages (v.unique k),
        )
        (ground (arith, v.indexed k));
  unique = λ k.
      omega (arith, length-retain-retain-le (has_id k) (λ row. not (p row)) t.messages, v.unique k);
  addressed = λ msg. omega (
    arith,
    length-retain-retain-le (at_address msg) (λ row. not (p row)) t.messages,
    v.addressed msg,
  );
}

delete_folder_body-ok :
    (account folder : Text) (r : Repository) (u : Unit {0})
    → (delete_folder_body account folder r).0 ≡ ok u
    → (delete_folder_body account folder r).1.tables ≡ record r.tables {
      messages = delete_where (in_folder account folder) r.tables.messages;
      messages_fts =
          delete_many
            (ids (retain (in_folder account folder) r.tables.messages))
            r.tables.messages_fts;
    }
unfolding delete_folder_body
delete_folder_body-ok account folder r u h =
    let clear : List Text → Db (Unit {0}) =
      λ (ks : List Text). for_each tt (λ k. exec_fts (delete_fts k)) ks in
    let drop : Db (Unit {0}) = exec_messages (delete_where (in_folder account folder)) in
    let (ks, p, q, e) = bind-ok (query (ids_in account folder)) (λ ks. drop >> clear ks) r u h in
    let (is, t) = query-ok (ids_in account folder) r ks p in
    let (b, p', q', e') = then-ok drop (clear ks) (query (ids_in account folder) r).1 u q in
    ap (λ (x : Repository). x.tables) (sym e)
    ∙ ap (λ (x : Repository). x.tables) (sym e')
    ∙ for_each-delete_fts ks _ u q'
    ∙ ap (λ (x : Tables). record x { messages_fts = delete_many ks x.messages_fts })
        (exec_messages-ok (delete_where (in_folder account folder)) _ b p')
    ∙ rw (is, t) refl

pub delete_by_folder-Safe : (account folder : Text) → Safe (delete_by_folder account folder)
unfolding delete_by_folder
delete_by_folder-Safe account folder =
    in_tx-Keeps (delete_folder_body account folder) IsConsistent λ r u v h.
      rw (delete_folder_body-ok account folder r u h)
        (delete_rows-IsConsistent r.tables (in_folder account folder) v)
