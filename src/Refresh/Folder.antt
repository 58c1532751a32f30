-- ===== src/Refresh/Folder.antt =====
-- internal/refresh/refresh.go: the refresh of one folder. lockRefreshFolder makes it one step with
-- regard to other refreshes of the same folder. `now` is the time of the whole cycle.
use ksuite_mail.Common.{
  ℕ, Bool, false, not, ◌&&◌, ◌||◌, Option, none, some, List, [], ◌∷◌, ltb, ◌==◌, if◌then◌else◌,
  retain, Text, same,
}
use ksuite_mail.Common.Ints.{ℤ, pos, int_eq}
use ksuite_mail.Strings.{Platform, is_empty}
use ksuite_mail.Mail.{Account, RemoteFolderState, MessageEnvelope, CachedMessage, public_id}
use ksuite_mail.Actions.{pure, raise, ◌>>=◌, ◌>>◌}
use ksuite_mail.Cache.Tables.{FolderState}
use ksuite_mail.Cache.Reads.{list_uids_for_folder, folder_state}
use ksuite_mail.Cache.Writes.{
  has_uid, upsert_message, mark_folder_verified, mark_uids_verified, delete_by_folder,
  delete_missing_by_uid_set, delete_missing_by_uid_set_in_range, upsert_folder_state,
}
use ksuite_mail.Refresh.Content.{strip_embedded_replies, truncate_text_bytes}
use ksuite_mail.Refresh.Uids.{CandidateDiscovery, uid_in_slice, observed_scope_bounds}
use ksuite_mail.Refresh.Source.{Source, panicked}
use ksuite_mail.Refresh.Discover.{discover_candidates}
use ksuite_mail.Refresh.Allowed.{
  Step, cached, ask, default_snippet_bytes, policy_fingerprint, Reasons, find_reason,
  policy_allowed_uids,
}

unfoldable pub cached_uids_are_current : FolderState → RemoteFolderState → Bool
cached_uids_are_current state remote_state =
    int_eq remote_state.highest_mod_seq (pos 0)
    || (not (int_eq state.highest_mod_seq (pos 0))
        && int_eq state.highest_mod_seq remote_state.highest_mod_seq)

unfoldable pub uncached_uids : Text → Text → List ℕ → Step (List ℕ)
unfolding ◌>>=◌
uncached_uids account_id folder candidates = if is_empty candidates then pure [] else (do
  local ← cached (list_uids_for_folder account_id folder)
  pure (retain (λ uid. not (has_uid local uid)) candidates))

-- A folder with no state, or with another UIDVALIDITY, is cleared; what is left is the state that
-- the refresh goes on from.
unfoldable pub reset_folder :
    Account → Text → RemoteFolderState → Option FolderState → Step (Option FolderState)
unfolding ◌>>=◌ ◌>>◌
reset_folder account folder remote_state none = do
  local ← cached (list_uids_for_folder account.id folder)
  if is_empty local then pure tt else cached (delete_by_folder account.id folder)
  pure none
reset_folder account folder remote_state (some state) =
    if state.uidvalidity == remote_state.uidvalidity
    then pure (some state)
    else (do cached (delete_by_folder account.id folder); pure none)

-- Whether the server says that nothing changed since the state was written.
unfoldable pub is_unchanged : Text → RemoteFolderState → Option FolderState → Bool
is_unchanged fingerprint remote_state none = false
is_unchanged fingerprint remote_state (some state) =
    same state.policy_fingerprint fingerprint
    && state.uidvalidity == remote_state.uidvalidity
    && state.uidnext == remote_state.uidnext
    && not (int_eq state.highest_mod_seq (pos 0))
    && int_eq state.highest_mod_seq remote_state.highest_mod_seq

-- The state that a refresh records.
abbrev pub recorded : Platform → Account → Text → RemoteFolderState → ℕ → ℤ → ℕ → FolderState
recorded p account folder remote_state now mod_seq last_seen = record {
  account_id = account.id;
  folder = folder;
  uidvalidity = remote_state.uidvalidity;
  uidnext = remote_state.uidnext;
  highest_mod_seq = mod_seq;
  last_seen_uid = last_seen;
  policy_fingerprint = policy_fingerprint p account;
  last_refresh_attempted = some now;
  last_successful_refresh = some now;
}

abbrev pub seen_before : Option FolderState → ℕ
seen_before none = 0
seen_before (some state) = state.last_seen_uid

-- The branch of a folder that has not changed.
unfoldable pub confirm_folder :
    Platform → Account → Text → RemoteFolderState → ℕ → Option FolderState → Step (Unit {0})
unfolding ◌>>◌
confirm_folder p account folder remote_state now state = do
  cached (mark_folder_verified account.id folder remote_state.uidvalidity now)
  cached (
      upsert_folder_state (
        recorded p account folder remote_state now remote_state.highest_mod_seq
          (seen_before state)))

abbrev pub trusts_cache : Text → RemoteFolderState → Option FolderState → Bool
trusts_cache fingerprint remote_state none = false
trusts_cache fingerprint remote_state (some state) =
    same state.policy_fingerprint fingerprint && cached_uids_are_current state remote_state

-- The UIDs to fetch, and those that the cache has and that are observed to be still there.
unfoldable pub plan_fetch :
    Platform
    → Account
    → Text
    → RemoteFolderState
    → Option FolderState
    → List ℕ
    → Step (List ℕ × List ℕ)
unfolding ◌>>=◌
plan_fetch p account folder remote_state state candidates =
    if trusts_cache (policy_fingerprint p account) remote_state state
    then (do
      fetch ← uncached_uids account.id folder candidates
      pure (fetch, retain (λ uid. not (uid_in_slice fetch uid)) candidates))
    else pure (candidates, [])

-- The row that is stored for an envelope.
unfoldable pub to_cached :
    Platform → Account → Text → ℕ → ℕ → MessageEnvelope → Text → Text → CachedMessage
unfolding strip_embedded_replies truncate_text_bytes
to_cached p account folder uidvalidity now env body reason = record {
  id = public_id p account.id folder uidvalidity env.uid;
  account_id = account.id;
  folder = folder;
  uidvalidity = uidvalidity;
  uid = env.uid;
  message_id = env.message_id;
  thread_key = env.thread_key;
  subject = env.subject;
  from = env.from;
  to = env.to;
  cc = env.cc;
  bcc = env.bcc;
  date = env.date;
  flags = env.flags;
  has_attachments = env.has_attachments;
  snippet = truncate_text_bytes (strip_embedded_replies env.snippet) default_snippet_bytes;
  body_text = strip_embedded_replies body;
  visible_reason = reason;
  content_hash = env.content_hash;
  first_loaded_at = now;
  last_loaded_or_checked = now;
}

module _ (p : Platform) (src : Source) (account : Account) (folder : Text) (preview_bytes now : ℕ)
    (uidvalidity : ℕ) where
  unfoldable pub store_message : MessageEnvelope → Text → Step (Unit {0})
  unfolding ◌>>=◌
  store_message env reason = do
    body ← ask (src.fetch_body_preview account folder env.uid preview_bytes)
    cached (upsert_message (to_cached p account folder uidvalidity now env body reason))

  -- The body of the loop: `if !ok { continue }`, or what follows.
  abbrev pub store_or_skip :
      MessageEnvelope → Step (List ℕ) → Step (List ℕ) → Option Text → Step (List ℕ)
  store_or_skip env skip next none = skip
  store_or_skip env skip next (some reason) = store_message env reason >> next

  -- The loop over the envelopes; an envelope without a reason is passed over. It returns the UIDs to
  -- keep.
  unfoldable pub store_messages : Reasons → List MessageEnvelope → List ℕ → Step (List ℕ)
  unfolding store_message ◌>>◌ find_reason
  store_messages reasons [] keep = pure keep
  store_messages reasons (env ∷ envs) keep =
      let skip = store_messages reasons envs keep in
      let next = store_messages reasons envs (env.uid ∷ keep) in
      store_or_skip env skip next (find_reason reasons env.uid)

-- What is deleted and what is marked as verified, by how much of the folder was seen. Without bounds
-- Go panics.
abbrev pub delete_in_bounds : Account → Text → List ℕ → Option (ℕ × ℕ) → Step (Unit {0})
delete_in_bounds account folder keep none = raise panicked
delete_in_bounds account folder keep (some (min_uid, max_uid)) =
    cached (delete_missing_by_uid_set_in_range account.id folder keep min_uid max_uid)

unfoldable pub reconcile :
    Account → Text → RemoteFolderState → ℕ → CandidateDiscovery → List ℕ → List ℕ → Step (Unit {0})
unfolding ◌>>◌ observed_scope_bounds
reconcile account folder remote_state now discovered observed keep =
    if discovered.complete
    then (do
      cached (delete_missing_by_uid_set account.id folder keep)
      cached (mark_folder_verified account.id folder remote_state.uidvalidity now))
    else if not (is_empty discovered.uids) || discovered.use_scope_bounds
    then (do
      cached (mark_uids_verified account.id folder remote_state.uidvalidity observed now)
      delete_in_bounds account folder keep (observed_scope_bounds discovered discovered.uids))
    else pure tt

unfoldable pub highest_uid : ℕ → List ℕ → ℕ
highest_uid last [] = last
highest_uid last (uid ∷ uids) = highest_uid (if ltb last uid then uid else last) uids

abbrev pub fetch_allowed : Source → Account → Text → List ℕ → Step (List MessageEnvelope)
fetch_allowed src account folder allowed =
    if is_empty allowed then pure [] else ask (src.fetch_envelopes account folder allowed)

-- The branch of a folder that has changed.
unfoldable pub load_folder :
    Platform
    → Source
    → Account
    → Text
    → ℕ
    → ℕ
    → ℕ
    → RemoteFolderState
    → Option FolderState
    → Step (Unit {0})
unfolding ◌>>=◌ ◌>>◌ plan_fetch policy_allowed_uids store_messages reconcile highest_uid
load_folder p src account folder preview_bytes now max_candidates remote_state state = do
  discovered ← ask (discover_candidates p src account folder remote_state.uidnext max_candidates)
  plan ← plan_fetch p account folder remote_state state discovered.uids
  allowed ← policy_allowed_uids p src account folder plan.0
  envelopes ← fetch_allowed src account folder allowed.0
  keep ←
      store_messages p src account folder preview_bytes now remote_state.uidvalidity allowed.1
        envelopes plan.1
  reconcile account folder remote_state now discovered plan.1 keep
  cached (
      upsert_folder_state (
        recorded p account folder remote_state now
          (if discovered.complete then remote_state.highest_mod_seq else pos 0)
          (highest_uid (seen_before state) keep)))

unfoldable pub refresh_folder : Platform → Source → Account → Text → ℕ → ℕ → ℕ → Step (Unit {0})
unfolding ◌>>=◌ reset_folder confirm_folder load_folder
refresh_folder p src account folder preview_bytes now max_candidates = do
  state ← cached (folder_state account.id folder)
  remote_state ← ask (src.select_folder account folder)
  state' ← reset_folder account folder remote_state state
  (if is_unchanged (policy_fingerprint p account) remote_state state'
      then confirm_folder p account folder remote_state now state'
      else load_folder p src account folder preview_bytes now max_candidates remote_state state')
