-- ===== src/Daemon/Cached.antt =====
-- internal/cache/cache.go, as the daemon reads it: the methods that read leave the tables, and return rows
-- of the table messages.
use ksuite_mail.Common.{
  ℕ, zero, suc, ◌≡◌, sym, subst, refl, Bool, true, false, inl, inr, Bool-cases, Option, none, some,
  List, [], ◌∷◌, ◌++◌, In, All, retain, take, drop, if◌then◌else◌, Text, same, ltb,
}
use ksuite_mail.Common.Ints.{pos, pos_part}
use ksuite_mail.Strings.{trim_space, is_empty}
use ksuite_mail.Mail.{CachedMessage}
use ksuite_mail.Actions.Triples.{Triple, Triple-pure}
use ksuite_mail.Actions.Leaves.{Anywhere, Triple-test}
use ksuite_mail.Cache.Tables.{Tables, FtsRow, has_id}
use ksuite_mail.Cache.Session.{Repository, Db, draw, query}
use ksuite_mail.Cache.Reads.{
  head?, select_id, get_by_public_id, before, insert_by, sort_by, QueryFilter, in_scope,
  effective_limit, window, list_messages, join_fts, plain_text_fts_query, search_messages,
  thread_messages,
}
use ksuite_mail.Daemon.Replies.{thread_messages_loader}

module _ (P : CachedMessage → Type 0) where
  All-retain :
      (test : CachedMessage → Bool) (rows : List CachedMessage)
      → All P rows
      → All P (retain test rows)
  All-retain test [] h = tt
  All-retain test (x ∷ xs) (p, h) = elim (Bool-cases (test x)) [
    | inl e ↦ rw e (p, All-retain test xs h)
    | inr e ↦ rw e (All-retain test xs h)
  ]

  All-insert_by :
      (lt : CachedMessage → CachedMessage → Bool) (x : CachedMessage) (rows : List CachedMessage)
      → P x
      → All P rows
      → All P (insert_by lt x rows)
  unfolding insert_by
  All-insert_by lt x [] p h = (p, tt)
  All-insert_by lt x (y ∷ ys) p (q, h) = elim (Bool-cases (lt y x)) [
    | inl e ↦ rw e (q, All-insert_by lt x ys p h)
    | inr e ↦ rw e (p, (q, h))
  ]

  All-sort_by :
      (lt : CachedMessage → CachedMessage → Bool) (rows : List CachedMessage)
      → All P rows
      → All P (sort_by lt rows)
  unfolding sort_by
  All-sort_by lt [] h = tt
  All-sort_by lt (x ∷ xs) (p, h) = All-insert_by lt x _ p (All-sort_by lt xs h)

  All-first : (n : ℕ) (rows : List CachedMessage) → All P rows → All P (take n rows)
  All-first zero rows h = tt
  All-first (suc n) [] h = tt
  All-first (suc n) (x ∷ xs) (p, h) = (p, All-first n xs h)

  All-drop : (n : ℕ) (rows : List CachedMessage) → All P rows → All P (drop n rows)
  All-drop zero rows h = h
  All-drop (suc n) [] h = tt
  All-drop (suc n) (x ∷ xs) (p, h) = All-drop n xs h

  All-append : (xs ys : List CachedMessage) → All P xs → All P ys → All P (xs ++ ys)
  All-append [] ys h k = k
  All-append (x ∷ xs) ys (p, h) k = (p, All-append xs ys h k)

  All-join_fts :
      (hit : FtsRow → Bool) (fs : List FtsRow) (rows : List CachedMessage)
      → All P rows
      → All P (join_fts hit fs rows)
  unfolding join_fts
  All-join_fts hit [] rows h = tt
  All-join_fts hit (f ∷ fs) rows h = elim (Bool-cases (hit f)) [
    | inl e ↦ rw e (
        All-append (select_id f.public_id rows) (join_fts hit fs rows)
          (All-retain (has_id f.public_id) rows h) (All-join_fts hit fs rows h))
    | inr e ↦ rw e (All-join_fts hit fs rows h)
  ]

All-self :
    (P : CachedMessage → Type 0) (rows : List CachedMessage)
    → ((x : CachedMessage) → In x rows → P x)
    → All P rows
All-self P [] h = tt
All-self P (x ∷ xs) h = (h x (inl refl), All-self P xs (λ y i. h y (inr i)))

-- The row is in the table messages.
abbrev pub IsCached : Tables → CachedMessage → Type 0
IsCached t m = In m t.messages

abbrev pub tables_of : Repository → Tables
tables_of r = r.tables

abbrev pub Has : Tables → Repository → Type 0
Has t r = tables_of r ≡ t

-- The found row is among the rows and has the id, or none of the rows has it.
abbrev IsRowIn : Text → List CachedMessage → Option CachedMessage → Type 0
IsRowIn id rows none = All (λ m. same m.id id ≡ false) rows
IsRowIn id rows (some m) = In m rows × (same m.id id ≡ true)

abbrev pub IsRowOf : Text → Tables → Option CachedMessage → Type 0
IsRowOf id t found = IsRowIn id t.messages found

-- No row has the id.
abbrev pub IsMissed : Text → Tables → Type 0
IsMissed id t = All (λ (m : CachedMessage). same m.id id ≡ false) t.messages

module _ (t : Tables) where
  query-Has :
      {A : Type 0}
      → (read : Tables → A) (F : A → Type 0) → F (read t)
      → Triple (Has t) (query read) (λ a r. Has t r × F a) Anywhere
  unfolding query
  query-Has {A} read F f = record {
    at = λ r h. elim (Bool-cases (draw r.faults).0) [
      | inl bad ↦ rw bad tt
      | inr good ↦ rw good (h, subst (λ u. F (read u)) (sym h) f)
    ];
  }

  rows-IsCached : All (IsCached t) t.messages
  rows-IsCached = All-self (IsCached t) t.messages (λ x i. i)

  abbrev pub Returns : Db (List CachedMessage) → Type 0
  Returns m = Triple (Has t) m (λ rows r. Has t r × All (IsCached t) rows) Anywhere

  window-IsCached :
      (limit : ℕ) (f : QueryFilter) (rows : List CachedMessage)
      → All (IsCached t) rows
      → All (IsCached t) (window limit f.offset (sort_by before rows))
  window-IsCached limit f rows h =
      All-first (IsCached t) limit _
        (All-drop (IsCached t) (pos_part f.offset) _ (All-sort_by (IsCached t) before rows h))

  pub list_messages-Returns : (f : QueryFilter) → Returns (list_messages f)
  unfolding list_messages
  list_messages-Returns f =
      query-Has _ (All (IsCached t))
        (window-IsCached _ f _ (All-retain (IsCached t) (in_scope f) t.messages rows-IsCached))

  pub search_messages-Returns :
      (matches : Text → FtsRow → Bool) (f : QueryFilter) → Returns (search_messages matches f)
  unfolding search_messages
  search_messages-Returns matches f =
      Triple-test (Has t) (λ rows r. Has t r × All (IsCached t) rows)
        (is_empty (trim_space f.query_text)) _ _ (λ e. list_messages-Returns f)
        (λ e. query-Has _ (All (IsCached t)) (
          window-IsCached _ f _ (
            All-retain (IsCached t) (in_scope f) _ (
              All-join_fts (IsCached t) (matches (plain_text_fts_query f.query_text)) t.messages_fts
                t.messages rows-IsCached))))

  pub thread_messages_loader-Returns :
      (seed : CachedMessage) (limit offset : ℕ)
      → IsCached t seed
      → Returns (thread_messages_loader seed limit offset)
  unfolding thread_messages_loader thread_messages
  thread_messages_loader-Returns seed limit offset i =
      Triple-test (Has t) (λ rows r. Has t r × All (IsCached t) rows)
        (is_empty (trim_space seed.thread_key)) _ _
        (λ e.
          Triple-pure (Has t) (λ rows r. Has t r × All (IsCached t) rows) Anywhere _
            (λ s h. (h, one (ltb 0 offset))))
        (λ e. query-Has _ (All (IsCached t)) (
          All-first (IsCached t) (effective_limit (pos limit)) _ (
            All-drop (IsCached t) (pos_part (pos offset)) _ (
              All-sort_by (IsCached t) before _
                (All-retain (IsCached t) _ t.messages rows-IsCached)))))
    where
      one : (b : Bool) → All (IsCached t) (if b then [] else seed ∷ [])
      one true = tt
      one false = (i, tt)

  pub get_by_public_id-Has :
      (id : Text)
      → Triple (Has t) (get_by_public_id id) (λ found r. Has t r × IsRowOf id t found) Anywhere
  unfolding get_by_public_id
  get_by_public_id-Has id = query-Has _ (IsRowOf id t) (first t.messages)
    where
      later :
          (x : CachedMessage) (xs : List CachedMessage) (found : Option CachedMessage)
          → same x.id id ≡ false
          → IsRowIn id xs found
          → IsRowIn id (x ∷ xs) found
      later x xs none e a = (e, a)
      later x xs (some m) e (i, q) = (inr i, q)

      first : (rows : List CachedMessage) → IsRowIn id rows (head? (select_id id rows))
      first [] = tt
      first (x ∷ xs) = elim (Bool-cases (same x.id id)) [
        | inl e ↦ rw e (inl refl, e)
        | inr e ↦ rw e (later x xs _ e (first xs))
      ]
