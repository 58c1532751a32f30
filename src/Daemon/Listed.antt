-- ===== src/Daemon/Listed.antt =====
-- internal/daemon/daemon.go: what the pages and the threads are, over the tables of the cache.
use ksuite_mail.Common.{
  ℕ, zero, suc, arith, ◌<◌, ◌≡◌, refl, sym, ap, true, ◌&&◌, Bool-cases, inl, inr, List, [], ◌∷◌, ok,
  map, if◌then◌else◌, ltb, lt→ltb, take, drop, retain, Text, same,
}
use ksuite_mail.Strings.{Platform, trim_space, is_empty}
use ksuite_mail.Mail.{Config, CachedMessage}
use ksuite_mail.Cache.Tables.{Tables}
use ksuite_mail.Cache.Session.{Repository, query}
use ksuite_mail.Cache.Reads.{in_scope, before, sort_by, list_messages, thread_messages}
use ksuite_mail.Daemon.Access.{max_read_window, cached_message_allowed, to_message_summary}
use ksuite_mail.Daemon.Paging.{limit_or_default, visible_message_page, visible_thread_messages}
use ksuite_mail.Daemon.Pages.{LoadsSlices, visible_message_page_lem}
use ksuite_mail.Daemon.Threads.{visible_thread_messages_lem}
use ksuite_mail.Daemon.Replies.{filter_of, thread_messages_loader}

-- A cache whose driver does not fail.
abbrev pub sound_cache : Tables → ℕ → Repository
sound_cache t now = record { tables = t; now = now; faults = [] }

-- The rows of an account and a folder, where an empty text stands for any, newest first.
abbrev pub rows_of : Text → Text → Tables → List CachedMessage
rows_of account folder t =
    sort_by before (retain (in_scope (filter_of account folder [] 0 0)) t.messages)

-- The rows of a thread, newest first; a seed with a blank key is a thread of its own.
unfoldable pub thread_rows : CachedMessage → Tables → List CachedMessage
thread_rows seed t =
    if is_empty (trim_space seed.thread_key)
    then seed ∷ []
    else sort_by before (
        retain (λ row. same row.account_id seed.account_id && same row.thread_key seed.thread_key)
          t.messages)

drop-nil : (o : ℕ) (xs : List CachedMessage) → xs ≡ [] → drop o xs ≡ []
drop-nil zero xs e = e
drop-nil (suc o) [] e = refl
drop-nil (suc o) (x ∷ xs) e = cc

take-nil : (n : ℕ) (xs : List CachedMessage) → xs ≡ [] → take n xs ≡ []
take-nil zero xs e = refl
take-nil (suc n) [] e = refl
take-nil (suc n) (x ∷ xs) e = cc

list_messages-LoadsSlices :
    (account folder : Text) (t : Tables) (now : ℕ)
    → LoadsSlices
        (λ limit offset. list_messages (filter_of account folder [] limit offset))
        (rows_of account folder t)
        (sound_cache t now)
unfolding list_messages query
list_messages-LoadsSlices account folder t now n o h = rw (lt→ltb 0 n h) refl

single :
    (seed : CachedMessage) (n o : ℕ)
    → 0 < n
    → (if ltb 0 o then [] else seed ∷ []) ≡ take n (drop o (seed ∷ []))
single seed zero o h = absurd (omega arith)
single seed (suc n) zero h = ap (λ xs. seed ∷ xs) (sym (take-nil n [] refl))
single seed (suc n) (suc o) h = rw late (sym (take-nil (suc n) (drop o []) (drop-nil o [] refl)))
  where
    late : ltb 0 (suc o) ≡ true
    late = lt→ltb 0 (suc o) (omega arith)

thread_messages_loader-LoadsSlices :
    (seed : CachedMessage) (t : Tables) (now : ℕ)
    → LoadsSlices (thread_messages_loader seed) (thread_rows seed t) (sound_cache t now)
unfolding thread_messages_loader thread_rows thread_messages query
thread_messages_loader-LoadsSlices seed t now n o h =
    elim (Bool-cases (is_empty (trim_space seed.thread_key))) [
      | inl blank ↦ rw blank (ap (λ xs. (ok xs, sound_cache t now)) (single seed n o h))
      | inr keyed ↦ rw (keyed, lt→ltb 0 n h) refl
    ]

-- A page of handleList, on a cache whose driver does not fail: of the first maxReadWindow rows of the
-- account and the folder, newest first, those that the configuration allows, without the first `offset`
-- of them, and then at most `limit`, or defaultLimit where `limit` is 0. The cache stays as it is.
pub visible_message_page-list_messages :
    (p : Platform) (cfg : Config) (account folder : Text) (limit offset : ℕ) (t : Tables) (now : ℕ)
    → visible_message_page p cfg
        (λ n o. list_messages (filter_of account folder [] n o))
        limit
        offset
        (sound_cache t now)
      ≡ (
        ok (
            take (limit_or_default limit) (
              drop offset (
                map to_message_summary (
                  retain
                    (cached_message_allowed p cfg)
                    (take max_read_window (rows_of account folder t)))))),
        sound_cache t now,
      )
visible_message_page-list_messages p cfg account folder limit offset t now =
    visible_message_page_lem p cfg (λ n o. list_messages (filter_of account folder [] n o))
      (rows_of account folder t) limit offset (sound_cache t now)
      (list_messages-LoadsSlices account folder t now)

-- The messages that handleThread reads, on a cache whose driver does not fail: of the first maxReadWindow
-- rows of the seed's account and thread key, newest first, those that the configuration allows, and at
-- most `limit`, or defaultLimit where `limit` is 0; where the key is blank, the seed stands for these rows.
pub visible_thread_messages-thread_messages_loader :
    (p : Platform) (cfg : Config) (seed : CachedMessage) (limit : ℕ) (t : Tables) (now : ℕ)
    → visible_thread_messages p cfg (thread_messages_loader seed) limit (sound_cache t now) ≡ (
      ok (
          take
            (limit_or_default limit)
            (retain (cached_message_allowed p cfg) (take max_read_window (thread_rows seed t)))),
      sound_cache t now,
    )
visible_thread_messages-thread_messages_loader p cfg seed limit t now =
    visible_thread_messages_lem p cfg (thread_messages_loader seed) (thread_rows seed t) limit
      (sound_cache t now) (thread_messages_loader-LoadsSlices seed t now)
