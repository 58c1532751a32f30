-- ===== src/Cache/Consistent.antt =====
-- internal/cache/cache.go: the consistency of the tables messages and messages_fts.
use ksuite_mail.Common.{
  ◌≤◌, ◌≡◌, refl, ap, subst, Bool, true, false, not, List, [], ◌∷◌, ◌++◌, map, arith, if◌then◌else◌,
  Bool-cases, inl, inr, ok, retain, any, length, Text, same, same_iff,
}
use mathlib.Core.List.{append-nil}
use ksuite_mail.Mail.{CachedMessage}
use ksuite_mail.Cache.Tables.{
  Tables, FtsRow, has_id, at_address, delete_where, update_where, merge, upsert_row, fts_row,
  delete_fts,
}
use ksuite_mail.Cache.Reads.{select_id}
use ksuite_mail.Cache.Rows.{
  select_fts, retain-append, length-retain-retain-le, retain_none, select_id-delete_where,
  select_fts-delete_fts, retain-update_where, length-update_where, map-fts_row-update_where,
}

-- Under each public id the search index has the texts of the messages with that id, no less and no
-- more; no id has two messages, and neither has a place in a folder.
pub record IsConsistent (t : Tables) : Type 0 where
  pub indexed : (k : Text) → select_fts k t.messages_fts ≡ map fts_row (select_id k t.messages)
  pub unique : (k : Text) → length (select_id k t.messages) ≤ 1
  pub addressed : (msg : CachedMessage) → length (retain (at_address msg) t.messages) ≤ 1

module _ (t : Tables) (v : IsConsistent t) where
  pub delete_pair-IsConsistent :
      (j : Text)
      → IsConsistent (record t {
        messages = delete_where (has_id j) t.messages;
        messages_fts = delete_fts j t.messages_fts;
      })
  delete_pair-IsConsistent j = record {
    indexed = λ k.
        rw (select_id-delete_where j k t.messages, select_fts-delete_fts j k t.messages_fts)
          (ground (arith, v.indexed k));
    unique = λ k. rw (select_id-delete_where j k t.messages) (ground (arith, v.unique k));
    addressed = λ msg. omega (
      arith,
      length-retain-retain-le (at_address msg) (λ row. not (has_id j row)) t.messages,
      v.addressed msg,
    );
  }

  -- An update of columns that are neither searched nor part of a key.
  pub update-IsConsistent :
      (test : CachedMessage → Bool) (f : CachedMessage → CachedMessage)
      → ((x : CachedMessage) → fts_row (f x) ≡ fts_row x)
      → ((msg x : CachedMessage) → at_address msg (f x) ≡ at_address msg x)
      → IsConsistent (record t { messages = update_where test f t.messages })
  update-IsConsistent test f same_row same_place = record {
    indexed = λ k.
        rw
          (
            retain-update_where (has_id k) test f (λ x. ap (λ r. same r.public_id k) (same_row x))
                t.messages,
            map-fts_row-update_where test f same_row (select_id k t.messages),
          )
          (v.indexed k);
    unique = λ k.
        rw
          (
            retain-update_where (has_id k) test f (λ x. ap (λ r. same r.public_id k) (same_row x))
                t.messages,
            length-update_where test f (select_id k t.messages),
          )
          (v.unique k);
    addressed = λ msg.
        rw
          (
            retain-update_where (at_address msg) test f (same_place msg) t.messages,
            length-update_where test f (retain (at_address msg) t.messages),
          )
          (v.addressed msg);
  }

-- The rows of one id, once their contents are replaced.
select_updated :
    (msg : CachedMessage) (rows : List CachedMessage)
    → length (select_id msg.id rows) ≤ 1
    → any (has_id msg.id) rows ≡ true
    → map fts_row (update_where (has_id msg.id) (λ old. merge old msg) (select_id msg.id rows))
      ≡ fts_row msg ∷ []
unfolding update_where
select_updated msg [] u h = cc
select_updated msg (x ∷ xs) u h = elim (Bool-cases (has_id msg.id x)) [
  | inl e ↦ one (select_id msg.id xs) e (ground arith)
  | inr e ↦ rw e (select_updated msg xs (rw e at u) (rw e at h))
]
  where
    one :
        (rest : List CachedMessage)
        → has_id msg.id x ≡ true
        → length rest ≤ 0
        → map fts_row (
            update_where
              (has_id msg.id)
              (λ old. merge old msg)
              (if has_id msg.id x then x ∷ rest else rest))
          ≡ fts_row msg ∷ []
    one [] e l = rw (e, e, (same_iff x.id msg.id).0 e)
    one (y ∷ ys) e l = absurd (omega arith)

select_other :
    (j k : Text) (f : CachedMessage → CachedMessage) (rows : List CachedMessage)
    → same j k ≡ false
    → update_where (has_id j) f (select_id k rows) ≡ select_id k rows
unfolding update_where
select_other j k f [] h = refl
select_other j k f (x ∷ xs) h =
    ground (arith, select_other j k f xs h, same_iff x.id j, same_iff x.id k, same_iff j k)

at_address_trans : (m n x : CachedMessage) → at_address m n ≡ true → at_address m x ≡ at_address n x
at_address_trans m n x h =
    ground (arith, same_iff n.account_id m.account_id, same_iff n.folder m.folder)

retain-at_address :
    (m n : CachedMessage) (rows : List CachedMessage)
    → at_address m n ≡ true
    → retain (at_address m) rows ≡ retain (at_address n) rows
retain-at_address m n [] h = refl
retain-at_address m n (x ∷ xs) h = rw (at_address_trans m n x h, retain-at_address m n xs h)

select_fts-replaced :
    (k : Text) (msg : CachedMessage) (rows : List FtsRow)
    → select_fts k (delete_fts msg.id rows ++ fts_row msg ∷ [])
      ≡ (if same msg.id k then fts_row msg ∷ [] else select_fts k rows)
select_fts-replaced k msg rows =
    rw
      (
        retain-append (λ (r : FtsRow). same r.public_id k) (delete_fts msg.id rows)
            (fts_row msg ∷ []),
        select_fts-delete_fts msg.id k rows,
      )
      (elim (Bool-cases (same msg.id k)) [ inl e ↦ rw e | inr e ↦ rw (e, append-nil) ])

module _ (t : Tables) (v : IsConsistent t) (msg : CachedMessage) where
  replace-IsConsistent :
      any (has_id msg.id) t.messages ≡ true
      → IsConsistent (record t {
        messages = update_where (has_id msg.id) (λ old. merge old msg) t.messages;
        messages_fts = delete_fts msg.id t.messages_fts ++ fts_row msg ∷ [];
      })
  replace-IsConsistent h = record {
    indexed = λ k.
        rw
          (
            select_fts-replaced k msg t.messages_fts,
            retain-update_where (has_id k) (has_id msg.id) (λ old. merge old msg) (λ x. refl)
                t.messages,
          )
          (elim (Bool-cases (same msg.id k)) [
            | inl e ↦
                rw (e, ← (same_iff msg.id k).0 e, select_updated msg t.messages (v.unique msg.id) h)
            | inr e ↦
                rw (e, select_other msg.id k (λ old. merge old msg) t.messages e) (v.indexed k)
          ]);
    unique = λ k.
        rw
          (
            retain-update_where (has_id k) (has_id msg.id) (λ old. merge old msg) (λ x. refl)
                t.messages,
            length-update_where (has_id msg.id) (λ old. merge old msg) (select_id k t.messages),
          )
          (v.unique k);
    addressed = λ m.
        rw
          (
            retain-update_where (at_address m) (has_id msg.id) (λ old. merge old msg) (λ x. refl)
                t.messages,
            length-update_where (has_id msg.id) (λ old. merge old msg)
                (retain (at_address m) t.messages),
          )
          (v.addressed m);
  }

  insert-IsConsistent :
      any (has_id msg.id) t.messages ≡ false
      → any (at_address msg) t.messages ≡ false
      → IsConsistent (record t {
        messages = t.messages ++ msg ∷ [];
        messages_fts = delete_fts msg.id t.messages_fts ++ fts_row msg ∷ [];
      })
  insert-IsConsistent new free = record {
    indexed = λ k.
        rw
          (select_fts-replaced k msg t.messages_fts, retain-append (has_id k) t.messages (msg ∷ []))
          (elim (Bool-cases (same msg.id k)) [
            | inl e ↦ rw (e, ← (same_iff msg.id k).0 e, retain_none (has_id msg.id) t.messages new)
            | inr e ↦ rw (e, append-nil) (v.indexed k)
          ]);
    unique = λ k.
        rw (retain-append (has_id k) t.messages (msg ∷ [])) (elim (Bool-cases (same msg.id k)) [
          | inl e ↦
              rw (e, ← (same_iff msg.id k).0 e, retain_none (has_id msg.id) t.messages new)
                (omega arith)
          | inr e ↦ rw (e, append-nil) (v.unique k)
        ]);
    addressed = λ m.
        rw (retain-append (at_address m) t.messages (msg ∷ []))
          (elim (Bool-cases (at_address m msg)) [
            | inl e ↦
                rw
                  (
                    e,
                    retain-at_address m msg t.messages e,
                    retain_none (at_address msg) t.messages free,
                  )
                  (omega arith)
            | inr e ↦ rw (e, append-nil) (v.addressed m)
          ]);
  }

  pub upsert_row-IsConsistent :
      (rows : List CachedMessage)
      → upsert_row msg t.messages ≡ ok rows
      → IsConsistent (record t {
        messages = rows;
        messages_fts = delete_fts msg.id t.messages_fts ++ fts_row msg ∷ [];
      })
  unfolding upsert_row
  upsert_row-IsConsistent rows h = elim (Bool-cases (any (has_id msg.id) t.messages)) [
    | inl old ↦
        let e : update_where (has_id msg.id) (λ x. merge x msg) t.messages ≡ rows = ground arith in
        subst (λ rs. IsConsistent (with_rows rs)) e (replace-IsConsistent old)
    | inr new ↦ elim (Bool-cases (any (at_address msg) t.messages)) [
      | inl taken ↦ absurd (ground arith)
      | inr free ↦
          let e : t.messages ++ msg ∷ [] ≡ rows = ground arith in
          subst (λ rs. IsConsistent (with_rows rs)) e (insert-IsConsistent new free)
    ]
  ]
    where
      with_rows : List CachedMessage → Tables
      with_rows rs = record t {
        messages = rs;
        messages_fts = delete_fts msg.id t.messages_fts ++ fts_row msg ∷ [];
      }
