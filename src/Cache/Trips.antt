-- ===== src/Cache/Trips.antt =====
-- internal/cache/cache.go: what GetByPublicID finds after UpsertMessage.
use ksuite_mail.Common.{
  ◌≡◌, refl, sym, ap, subst, ◌∙◌, true, false, inl, inr, Bool-cases, Option, none, some, List, [],
  ◌∷◌, ◌++◌, Result, ok, err, if◌then◌else◌, any, Text, same, same_iff, ok_injective,
}
use mathlib.Core.List.{append-nil}
use ksuite_mail.Mail.{CachedMessage}
use ksuite_mail.Cache.Tables.{
  Tables, DbError, constraint, has_id, at_address, update_where, merge, upsert_row,
}
use ksuite_mail.Cache.Session.{Repository}
use ksuite_mail.Cache.Reads.{select_id, head?}
use ksuite_mail.Cache.Writes.{stamped, upsert_body, upsert_message}
use ksuite_mail.Cache.Rows.{retain-append, retain_none}
use ksuite_mail.Cache.Rules.{in_tx-ok, in_tx-err}
use ksuite_mail.Cache.Invariant.{upsert_body-ok}

-- The row that GetByPublicID reads in the tables.
abbrev pub found_at : Text → List CachedMessage → Option CachedMessage
found_at k rows = head? (select_id k rows)

-- The message under an id, once `msg` is stored under its own.
abbrev pub stored : CachedMessage → Option CachedMessage → CachedMessage
stored msg none = msg
stored msg (some old) = merge old msg

update-other :
    (msg : CachedMessage) (k : Text) (rows : List CachedMessage)
    → same msg.id k ≡ false
    → found_at k (update_where (has_id msg.id) (λ old. merge old msg) rows) ≡ found_at k rows
unfolding update_where
update-other msg k [] h = refl
update-other msg k (x ∷ xs) h = elim (Bool-cases (has_id msg.id x)) [
  | inl e ↦ rw (e, different e) (update-other msg k xs h)
  | inr e ↦ elim (Bool-cases (same x.id k)) [
    | inl f ↦ rw (e, f) refl
    | inr f ↦ rw (e, f) (update-other msg k xs h)
  ]
]
  where
    different : has_id msg.id x ≡ true → same x.id k ≡ false
    different e = ap (λ i. same i k) ((same_iff x.id msg.id).0 e) ∙ h

update-same :
    (msg : CachedMessage) (rows : List CachedMessage)
    → any (has_id msg.id) rows ≡ true
    → found_at msg.id (update_where (has_id msg.id) (λ old. merge old msg) rows)
      ≡ some (stored msg (found_at msg.id rows))
unfolding update_where
update-same msg [] h = cc
update-same msg (x ∷ xs) h = elim (Bool-cases (has_id msg.id x)) [
  | inl e ↦ rw (e, e) refl
  | inr e ↦ rw (e, e) (update-same msg xs (rw e at h))
]

found_at-append :
    (msg : CachedMessage) (k : Text) (rows : List CachedMessage)
    → any (has_id msg.id) rows ≡ false
    → found_at k (rows ++ msg ∷ [])
      ≡ (if same msg.id k then some (stored msg (found_at k rows)) else found_at k rows)
found_at-append msg k rows new =
    rw (retain-append (has_id k) rows (msg ∷ [])) (elim (Bool-cases (same msg.id k)) [
      | inl e ↦ rw (e, none_yet e) refl
      | inr e ↦ rw (e, append-nil (select_id k rows)) refl
    ])
  where
    none_yet : same msg.id k ≡ true → select_id k rows ≡ []
    none_yet e =
        retain_none (has_id k) rows
          (subst (λ i. any (has_id i) rows ≡ false) ((same_iff msg.id k).0 e) new)

found_at-upsert_row :
    (msg : CachedMessage) (k : Text) (rows rows' : List CachedMessage)
    → upsert_row msg rows ≡ ok rows'
    → found_at k rows'
      ≡ (if same msg.id k then some (stored msg (found_at k rows)) else found_at k rows)
unfolding upsert_row
found_at-upsert_row msg k rows rows' h = elim (Bool-cases (any (has_id msg.id) rows)) [
  | inl old ↦ ap (found_at k) (sym (ok_injective (rw old at h))) ∙ replaced old
  | inr new ↦ elim (Bool-cases (any (at_address msg) rows)) [
    | inl taken ↦ absurd (refused (rw (new, taken) at h))
    | inr free ↦
        ap (found_at k) (sym (ok_injective (rw (new, free) at h))) ∙ found_at-append msg k rows new
  ]
]
  where
    refused : ◌≡◌ {A = Result DbError (List CachedMessage)} (err constraint) (ok rows') → ⊥
    refused h = cc

    replaced :
        any (has_id msg.id) rows ≡ true
        → found_at k (update_where (has_id msg.id) (λ x. merge x msg) rows)
          ≡ (if same msg.id k then some (stored msg (found_at k rows)) else found_at k rows)
    replaced old = elim (Bool-cases (same msg.id k)) [
      | inl e ↦ rw e (
          subst
            (λ i.
              found_at i (update_where (has_id msg.id) (λ x. merge x msg) rows)
              ≡ some (stored msg (found_at i rows)))
            ((same_iff msg.id k).0 e) (update-same msg rows old))
      | inr e ↦ rw e (update-other msg k rows e)
    ]

-- What GetByPublicID reads under any id after an UpsertMessage that succeeded: under the id of the
-- message, the message itself where the id is new, and else the message with the account, folder,
-- UIDVALIDITY, UID and time of the first load that were stored before; under every other id, what was there.
pub upsert_message-found :
    (msg : CachedMessage) (k : Text) (r : Repository) (u : Unit {0})
    → (upsert_message msg r).0 ≡ ok u
    → found_at k (upsert_message msg r).1.tables.messages ≡ (
        if same msg.id k
        then some (stored (stamped r.now msg) (found_at k r.tables.messages))
        else found_at k r.tables.messages)
unfolding upsert_message
upsert_message-found msg k r u h =
    let (r', same_tables, same_now, done, left) =
      in_tx-ok (upsert_body (stamped r.now msg)) r u h in
    let (rows, put, e) = upsert_body-ok (stamped r.now msg) r' u done in
    ap (λ (t : Tables). found_at k t.messages) (left ∙ e)
    ∙ found_at-upsert_row (stamped r.now msg) k r'.tables.messages rows put
    ∙ ap
        (λ (t : Tables).
          if same msg.id k
          then some (stored (stamped r.now msg) (found_at k t.messages))
          else found_at k t.messages)
        same_tables

-- An UpsertMessage that fails, in any of its statements or in its commit, leaves the tables as they were.
pub upsert_message-err :
    (msg : CachedMessage) (r : Repository) (e : DbError)
    → (upsert_message msg r).0 ≡ err e
    → (upsert_message msg r).1.tables ≡ r.tables
unfolding upsert_message
upsert_message-err msg r e h = in_tx-err (upsert_body (stamped r.now msg)) r e h
