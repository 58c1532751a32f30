-- ===== src/Cache/Expiry.antt =====
-- internal/cache/cache.go: the consistency of the tables under CleanupExpired.
use ksuite_mail.Common.{
  ℕ, ◌-◌, ◌≤◌, ◌≡◌, refl, subst, Bool, true, false, ◌&&◌, List, [], ◌∷◌, arith, if◌then◌else◌,
  Bool-cases, inl, inr, ◌==◌, ok, Option, none, some, retain, length, Text, same_iff, ltb,
}
use ksuite_mail.Common.Ints.{ℤ, pos_part, positive}
use ksuite_mail.Strings.{is_empty}
use ksuite_mail.Mail.{CachedMessage}
use ksuite_mail.Actions.{pure, ◌>>◌, for_each}
use ksuite_mail.Actions.Keeps.{Keeps-pure, Keeps-if, Keeps-bind, Keeps-for_each}
use ksuite_mail.Cache.Tables.{Tables, has_id, in_folder, delete_where, delete_fts, delete_state}
use ksuite_mail.Cache.Session.{Repository, Db, draw, query, in_tx}
use ksuite_mail.Cache.Reads.{select_id, sort_by}
use ksuite_mail.Cache.Writes.{exec_fts, exec_state}
use ksuite_mail.Cache.Cleanup.{
  is_expired, exec_delete, folder_key, split_key, add_key, delete_expired_row, delete_expired,
  drop_state_if_empty, cleanup_body, id_lt, cleanup_from, cleanup_expired,
}
use ksuite_mail.Cache.Rules.{then-ok, bind-ok, query-Keeps, in_tx-Keeps}
use ksuite_mail.Cache.Consistent.{IsConsistent}
use ksuite_mail.Cache.Invariant.{Safe, exec_fts-ok, exec_state-Safe}
use ksuite_mail.Cache.Sweep.{ids, delete_many, delete_rows-IsConsistent}

-- What DELETE ... WHERE leaves, and the number of rows that it reports.
pub exec_delete-ok :
    (test : CachedMessage → Bool) (r : Repository) (n : ℕ)
    → (exec_delete test r).0 ≡ ok n
    → (length (retain test r.tables.messages) ≡ n)
      × ((exec_delete test r).1.tables
          ≡ record r.tables { messages = delete_where test r.tables.messages })
unfolding exec_delete
exec_delete-ok test r n h = elim (Bool-cases (draw r.faults).0) [
  | inl bad ↦ ground arith
  | inr good ↦ ground arith
]

-- The row that the loop is at, if it is still there and still expired.
abbrev due : ℕ → CachedMessage → CachedMessage → Bool
due threshold row x = has_id row.id x && is_expired threshold x

nil_of_select :
    (j : Text) (q : CachedMessage → Bool) (xs : List CachedMessage)
    → length (select_id j xs) ≤ 0
    → retain (λ x. has_id j x && q x) xs ≡ []
nil_of_select j q [] u = refl
nil_of_select j q (x ∷ xs) u = ground (arith, nil_of_select j q xs)

one_hit :
    (j : Text) (q : CachedMessage → Bool) (xs : List CachedMessage)
    → length (select_id j xs) ≤ 1
    → (length (retain (λ x. has_id j x && q x) xs) == 0) ≡ false
    → ids (retain (λ x. has_id j x && q x) xs) ≡ j ∷ []
one_hit j q [] u n = ground arith
one_hit j q (x ∷ xs) u n = ground (arith, one_hit j q xs, nil_of_select j q xs, same_iff x.id j)

no_hit :
    (p : CachedMessage → Bool) (xs : List CachedMessage)
    → (length (retain p xs) == 0) ≡ true
    → ids (retain p xs) ≡ []
no_hit p [] n = refl
no_hit p (x ∷ xs) n = ground (arith, no_hit p xs)

abbrev take_entry : ℕ → CachedMessage → List Text → ℕ → Db (List Text)
take_entry threshold row keys affected =
    if affected == 0
    then pure keys
    else (exec_fts (delete_fts row.id) >> pure (add_key (folder_key row) keys))

-- The loop body once its first statement has taken `n` rows.
take_entry-step :
    (threshold : ℕ) (row : CachedMessage) (keys : List Text) (t : Tables) (n : ℕ) (r : Repository)
    (ks : List Text)
    → IsConsistent t
    → length (retain (due threshold row) t.messages) ≡ n
    → r.tables ≡ record t { messages = delete_where (due threshold row) t.messages }
    → (take_entry threshold row keys n r).0 ≡ ok ks
    → IsConsistent (take_entry threshold row keys n r).1.tables
unfolding delete_many
take_entry-step threshold row keys t n r ks v c e h = elim (Bool-cases (n == 0)) [
  | inl none_taken ↦
      rw (none_taken, e) (rw (no_hit (due threshold row) t.messages (rw c none_taken)) at swept)
  | inr some_taken ↦
      let (a, p, q, f) =
        then-ok (exec_fts (delete_fts row.id)) (pure (add_key (folder_key row) keys)) r ks
          (rw some_taken at h) in
      rw (some_taken, ← f, exec_fts-ok (delete_fts row.id) r a p, e)
        (rw (one_hit row.id (is_expired threshold) t.messages (v.unique row.id) (rw c some_taken))
          at swept)
]
  where
    swept : IsConsistent (record t {
      messages = delete_where (due threshold row) t.messages;
      messages_fts = delete_many (ids (retain (due threshold row) t.messages)) t.messages_fts;
    })
    swept = delete_rows-IsConsistent t (due threshold row) v

delete_expired_row-step :
    (threshold : ℕ) (row : CachedMessage) (keys : List Text) (r : Repository) (ks : List Text)
    → IsConsistent r.tables
    → (delete_expired_row threshold row keys r).0 ≡ ok ks
    → IsConsistent (delete_expired_row threshold row keys r).1.tables
delete_expired_row-step threshold row keys r ks v h =
    let (n, p, q, e) =
      bind-ok (exec_delete (due threshold row)) (take_entry threshold row keys) r ks h in
    let (c, t) = exec_delete-ok (due threshold row) r n p in
    subst (λ (x : Repository). IsConsistent x.tables) e
      (take_entry-step threshold row keys r.tables n _ ks v c t q)

delete_expired-step :
    (threshold : ℕ) (rows : List CachedMessage) (keys : List Text) (r : Repository) (ks : List Text)
    → IsConsistent r.tables
    → (delete_expired threshold rows keys r).0 ≡ ok ks
    → IsConsistent (delete_expired threshold rows keys r).1.tables
unfolding delete_expired
delete_expired-step threshold [] keys r ks v h = v
delete_expired-step threshold (row ∷ rows) keys r ks v h =
    let (ks', p, q, e) =
      bind-ok (delete_expired_row threshold row keys) (delete_expired threshold rows) r ks h in
    subst (λ (x : Repository). IsConsistent x.tables) e
      (delete_expired-step threshold rows ks' _ ks
        (delete_expired_row-step threshold row keys r ks' v p) q)

drop_state_if_empty-Safe : (key : Option (Text × Text)) → Safe (drop_state_if_empty key)
drop_state_if_empty-Safe none = Keeps-pure tt
drop_state_if_empty-Safe (some (account, folder)) =
    Keeps-bind (query λ t. length (retain (in_folder account folder) t.messages)) _
      (query-Keeps IsConsistent _)
      λ retained.
        Keeps-if (ltb 0 retained) (pure tt) (exec_state (delete_state account folder))
          (Keeps-pure tt) (exec_state-Safe (delete_state account folder))

cleanup_body-step :
    (threshold : ℕ) (rows : List CachedMessage) (r : Repository) (u : Unit {0})
    → IsConsistent r.tables
    → (cleanup_body threshold rows r).0 ≡ ok u
    → IsConsistent (cleanup_body threshold rows r).1.tables
unfolding cleanup_body
cleanup_body-step threshold rows r u v h =
    let drops : List Text → Db (Unit {0}) =
      λ (keys : List Text). for_each tt (λ key. drop_state_if_empty (split_key key)) keys in
    let (keys, p, q, e) = bind-ok (delete_expired threshold rows []) drops r u h in
    subst (λ (x : Repository). IsConsistent x.tables) e
      ((Keeps-for_each tt (λ key. drop_state_if_empty (split_key key)) keys
          λ key. drop_state_if_empty-Safe (split_key key)).at
        _ (delete_expired-step threshold rows [] r keys v p))

cleanup_from-Safe : (threshold : ℕ) → Safe (cleanup_from threshold)
unfolding cleanup_from
cleanup_from-Safe threshold =
    Keeps-bind (query λ t. retain (is_expired threshold) t.messages) _ (query-Keeps IsConsistent _)
      λ expired.
        Keeps-if (is_empty expired) (pure tt)
          (in_tx (cleanup_body threshold (sort_by id_lt expired))) (Keeps-pure tt)
          (in_tx-Keeps (cleanup_body threshold (sort_by id_lt expired)) IsConsistent
            (cleanup_body-step threshold (sort_by id_lt expired)))

pub cleanup_expired-Safe : (ttl : ℤ) → Safe (cleanup_expired ttl)
unfolding cleanup_expired
cleanup_expired-Safe ttl = record {
  at = λ r v. elim (Bool-cases (positive ttl)) [
    | inl e ↦ rw e ((cleanup_from-Safe (r.now - pos_part ttl)).at r v)
    | inr e ↦ rw e v
  ];
}
