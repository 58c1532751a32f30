-- ===== src/Cache/Reads.antt =====
-- internal/cache/cache.go: the methods of Repository that read. A SELECT with no ORDER BY returns
-- the rows as they stand in the table.
use ksuite_mail.Common.{
  ℕ, ◌/◌, Bool, ◌&&◌, ◌||◌, Option, none, some, List, [], ◌∷◌, ◌++◌, map, ltb, ◌==◌, if◌then◌else◌,
  take, drop, retain, Result, ok, err, Text, same,
}
use ksuite_mail.Common.Ints.{ℤ, pos_part, positive}
use ksuite_mail.Strings.{trim_space, is_empty, fields, join}
use ksuite_mail.Mail.{CachedMessage}
use ksuite_mail.Cache.Stamp.{second, text_lt, stamp}
use ksuite_mail.Cache.Tables.{DbError, FtsRow, FolderState, has_id, in_folder, is_state_of}
use ksuite_mail.Cache.Session.{Repository, Db, query}

abbrev pub head? : {A : Type 0} → List A → Option A
head? [] = none
head? (x ∷ xs) = some x

-- GetByPublicID: `none` where no row has the id.
abbrev pub select_id : Text → List CachedMessage → List CachedMessage
select_id k rows = retain (has_id k) rows

unfoldable pub get_by_public_id : Text → Db (Option CachedMessage)
get_by_public_id k = query λ t. head? (select_id k t.messages)

-- ORDER BY datetime(date) DESC, uid DESC, public_id DESC; datetime() drops what is below a second.
unfoldable pub before : CachedMessage → CachedMessage → Bool
before a b =
    let sa = a.date / second in
    let sb = b.date / second in
    ltb sb sa || (sa == sb && (ltb b.uid a.uid || (a.uid == b.uid && text_lt b.id a.id)))

unfoldable pub insert_by : {A : Type 0} → (A → A → Bool) → A → List A → List A
insert_by lt x [] = x ∷ []
insert_by lt x (y ∷ ys) = if lt y x then y ∷ insert_by lt x ys else x ∷ y ∷ ys

unfoldable pub sort_by : {A : Type 0} → (A → A → Bool) → List A → List A
unfolding insert_by
sort_by lt [] = []
sort_by lt (x ∷ xs) = insert_by lt x (sort_by lt xs)

pub record QueryFilter : Type 0 where
  pub account_id : Text
  pub folder : Text
  pub query_text : Text
  pub limit : ℤ
  pub offset : ℤ

-- limit <= 0 stands for 100
abbrev pub effective_limit : ℤ → ℕ
effective_limit limit = if positive limit then pos_part limit else 100

-- LIMIT limit OFFSET offset, where SQLite takes a negative offset for 0.
abbrev pub window : {A : Type 0} → ℕ → ℤ → List A → List A
window limit offset rows = take limit (drop (pos_part offset) rows)

-- The WHERE clauses that the filter asks for; an empty field asks for none.
abbrev pub in_scope : QueryFilter → CachedMessage → Bool
in_scope f row =
    (is_empty f.account_id || same row.account_id f.account_id)
    && (is_empty f.folder || same row.folder f.folder)

unfoldable pub list_messages : QueryFilter → Db (List CachedMessage)
unfolding before sort_by
list_messages f =
    query λ t.
      window (effective_limit f.limit) f.offset (sort_by before (retain (in_scope f) t.messages))

-- strings.ReplaceAll(term, `"`, `""`)
unfoldable pub double_quotes : Text → Text
double_quotes [] = []
double_quotes (r ∷ rs) = if r == 0x22 then r ∷ r ∷ double_quotes rs else r ∷ double_quotes rs

abbrev pub quote_term : Text → Text
quote_term term = 0x22 ∷ (double_quotes term ++ 0x22 ∷ [])

abbrev pub quoted_or_empty : List Text → Text
quoted_or_empty [] = 0x22 ∷ 0x22 ∷ []
quoted_or_empty (t ∷ ts) = join (0x20 ∷ []) (map quote_term (t ∷ ts))

unfoldable pub plain_text_fts_query : Text → Text
unfolding double_quotes
plain_text_fts_query q = quoted_or_empty (fields q)

-- The rows of messages that the matching rows of messages_fts join to, by the public id.
unfoldable pub join_fts : (FtsRow → Bool) → List FtsRow → List CachedMessage → List CachedMessage
join_fts hit [] msgs = []
join_fts hit (f ∷ fs) msgs =
    if hit f then select_id f.public_id msgs ++ join_fts hit fs msgs else join_fts hit fs msgs

-- `matches` is the MATCH of SQLite's FTS5 at a query and a row.
unfoldable pub search_messages : (Text → FtsRow → Bool) → QueryFilter → Db (List CachedMessage)
unfolding list_messages before sort_by join_fts plain_text_fts_query
search_messages matches f =
    if is_empty (trim_space f.query_text)
    then list_messages f
    else (query λ t. window (effective_limit f.limit) f.offset (
        sort_by before (
          retain (in_scope f)
            (join_fts (matches (plain_text_fts_query f.query_text)) t.messages_fts t.messages))))

unfoldable pub thread_messages : Text → Text → ℤ → ℤ → Db (List CachedMessage)
unfolding before sort_by
thread_messages account thread_key limit offset = query λ t. window (effective_limit limit) offset (
    sort_by before
      (retain (λ row. same row.account_id account && same row.thread_key thread_key) t.messages))

unfoldable pub list_uids_for_folder : Text → Text → Db (List ℕ)
list_uids_for_folder account folder =
    query λ t. map (λ row. row.uid) (retain (in_folder account folder) t.messages)

-- FolderState: `none` where the table has no row for the folder.
unfoldable pub folder_state : Text → Text → Db (Option FolderState)
folder_state account folder = query λ t. head? (retain (is_state_of account folder) t.folder_state)

-- MAX(last_successful_refresh_at), the largest as text; NULLs are left aside.
abbrev pub later_stamp : Option ℕ → Option ℕ → Option ℕ
later_stamp none b = b
later_stamp (some a) none = some a
later_stamp (some a) (some b) = some (if text_lt (stamp a) (stamp b) then b else a)

unfoldable pub max_refresh : List FolderState → Option ℕ
max_refresh [] = none
max_refresh (fs ∷ rest) = later_stamp fs.last_successful_refresh (max_refresh rest)

abbrev pub or_none : Result DbError (Option ℕ) → Option ℕ
or_none (ok t) = t
or_none (err e) = none

-- LatestRefreshAt; an error of the query is nil.
unfoldable pub latest_refresh_at : Repository → Option ℕ × Repository
unfolding max_refresh
latest_refresh_at r = let (res, r') = query (λ t. max_refresh t.folder_state) r in (or_none res, r')
