-- ===== src/Refresh/Keeping.antt =====
-- internal/refresh/refresh.go: invariants of refreshFolder, by the invariants of the cache's methods.
use ksuite_mail.Common.{
  ℕ, ◌≡◌, refl, not, inl, inr, Option, none, some, List, [], ◌∷◌, Result, In, Text, same,
}
use ksuite_mail.Strings.{Platform, is_empty}
use ksuite_mail.Mail.{Account, RemoteFolderState, MessageEnvelope}
use ksuite_mail.Actions.{lift}
use ksuite_mail.Actions.Keeps.{
  Keeps, Keeps-pure, Keeps-raise, Keeps-lift, Keeps-if, Keeps-bind, Keeps-then, Keeps-with_error,
  Keeps-bind-yields, Yields-with_error,
}
use ksuite_mail.Cache.Tables.{Tables, FolderState}
use ksuite_mail.Cache.Session.{Db}
use ksuite_mail.Cache.Reads.{list_uids_for_folder, folder_state}
use ksuite_mail.Cache.Writes.{upsert_message}
use ksuite_mail.Cache.Rules.{OfTables, query-Keeps}
use ksuite_mail.Refresh.Source.{Source, SourceError, local_cache, remote, panicked}
use ksuite_mail.Refresh.Uids.{CandidateDiscovery, observed_scope_bounds}
use ksuite_mail.Refresh.Folder.{
  uncached_uids, reset_folder, confirm_folder, plan_fetch, to_cached, store_message, store_messages,
  store_or_skip, delete_in_bounds, reconcile, fetch_allowed, load_folder, refresh_folder,
  trusts_cache,
}
use ksuite_mail.Refresh.Allowed.{
  Step, cached, ask, Reasons, find_reason, policy_allowed_uids, policy_fingerprint,
}
use ksuite_mail.Refresh.Keeps.{
  IsKept, IsCleared, IsFetched, IsBody, AllCleared, policy_allowed_uids-Yields,
  fetch_allowed-Yields,
}

-- What a refresh stores under `P` may be stored: a fetched message that the policy lets pass, with the
-- body that was fetched for it.
abbrev pub Stores : Platform → Source → Account → Text → (Tables → Type 0) → Type 0
Stores p src account folder P =
    (uidvalidity now : ℕ) (env : MessageEnvelope) (body reason : Text)
    → IsFetched p src account folder env
    → IsCleared p src account folder env.uid reason
    → IsBody p src account folder env.uid body
    → Keeps (OfTables P)
        (upsert_message (to_cached p account folder uidvalidity now env body reason))

module _ (p : Platform) (src : Source) (account : Account) (folder : Text) (P : Tables → Type 0)
    (k : IsKept P) where
  ask-Keeps : {A : Type 0} → (r : Result SourceError A) → Keeps (OfTables P) (ask r)
  ask-Keeps r = Keeps-with_error remote (lift r) (Keeps-lift r)

  cached-Keeps : {A : Type 0} → (m : Db A) → Keeps (OfTables P) m → Keeps (OfTables P) (cached m)
  cached-Keeps m = Keeps-with_error local_cache m

  uncached_uids-Keeps : (uids : List ℕ) → Keeps (OfTables P) (uncached_uids account.id folder uids)
  unfolding uncached_uids list_uids_for_folder
  uncached_uids-Keeps uids =
      Keeps-if (is_empty uids) _ _ (Keeps-pure [])
        (Keeps-bind _ _ (cached-Keeps _ (query-Keeps P _)) λ local. Keeps-pure _)

  plan_fetch-Keeps :
      (remote_state : RemoteFolderState) (state : Option FolderState) (uids : List ℕ)
      → Keeps (OfTables P) (plan_fetch p account folder remote_state state uids)
  unfolding plan_fetch
  plan_fetch-Keeps remote_state state uids =
      Keeps-if (trusts_cache (policy_fingerprint p account) remote_state state) _ _
        (Keeps-bind _ _ (uncached_uids-Keeps uids) λ fetch. Keeps-pure _) (Keeps-pure (uids, []))

  policy_allowed_uids-Keeps :
      (uids : List ℕ) → Keeps (OfTables P) (policy_allowed_uids p src account folder uids)
  unfolding policy_allowed_uids
  policy_allowed_uids-Keeps uids = Keeps-if (is_empty uids) _ _ (Keeps-pure _) (
      Keeps-if (not (same account.policy _)) _ _ (Keeps-pure _) (
        Keeps-bind _ _ (ask-Keeps (src.fetch_headers account folder uids)) λ headers. Keeps-pure _))

  fetch_allowed-Keeps : (uids : List ℕ) → Keeps (OfTables P) (fetch_allowed src account folder uids)
  fetch_allowed-Keeps uids =
      Keeps-if (is_empty uids) _ _ (Keeps-pure [])
        (ask-Keeps (src.fetch_envelopes account folder uids))

  reset_folder-Keeps :
      (remote_state : RemoteFolderState) (state : Option FolderState)
      → Keeps (OfTables P) (reset_folder account folder remote_state state)
  unfolding reset_folder list_uids_for_folder
  reset_folder-Keeps remote_state none = Keeps-bind _ _ (cached-Keeps _ (query-Keeps P _)) λ local.
      Keeps-then _ _
        (Keeps-if (is_empty local) _ _ (Keeps-pure tt)
          (cached-Keeps _ (k.by_delete_folder account.id folder)))
        (Keeps-pure none)
  reset_folder-Keeps remote_state (some state) =
      Keeps-if _ _ _ (Keeps-pure (some state))
        (Keeps-then _ _ (cached-Keeps _ (k.by_delete_folder account.id folder)) (Keeps-pure none))

  delete_in_bounds-Keeps :
      (keep : List ℕ) (bounds : Option (ℕ × ℕ))
      → Keeps (OfTables P) (delete_in_bounds account folder keep bounds)
  delete_in_bounds-Keeps keep none = Keeps-raise panicked
  delete_in_bounds-Keeps keep (some (min_uid, max_uid)) =
      cached-Keeps _ (k.by_delete_in_range account.id folder keep min_uid max_uid)

  reconcile-Keeps :
      (remote_state : RemoteFolderState) (now : ℕ) (discovered : CandidateDiscovery)
      (observed keep : List ℕ)
      → Keeps (OfTables P) (reconcile account folder remote_state now discovered observed keep)
  unfolding reconcile
  reconcile-Keeps remote_state now discovered observed keep =
      Keeps-if discovered.complete _ _
        (Keeps-then _ _ (cached-Keeps _ (k.by_delete_missing account.id folder keep))
          (cached-Keeps _ (k.by_mark_folder account.id folder remote_state.uidvalidity now)))
        (Keeps-if _ _ _
          (Keeps-then _ _
            (cached-Keeps _
              (k.by_mark_uids account.id folder remote_state.uidvalidity observed now))
            (delete_in_bounds-Keeps keep (observed_scope_bounds discovered discovered.uids)))
          (Keeps-pure tt))

  module _ (stores : Stores p src account folder P) where
    store_or_skip-Keeps :
        (preview_bytes now uidvalidity : ℕ) (env : MessageEnvelope) (skip next : Step (List ℕ))
        (found : Option Text)
        → IsFetched p src account folder env
        → ((reason : Text) → found ≡ some reason → IsCleared p src account folder env.uid reason)
        → Keeps (OfTables P) skip
        → Keeps (OfTables P) next
        → Keeps
            (OfTables P)
            (store_or_skip p src account folder preview_bytes now uidvalidity env skip next found)
    unfolding store_message
    store_or_skip-Keeps preview_bytes now uidvalidity env skip next none f c s n = s
    store_or_skip-Keeps preview_bytes now uidvalidity env skip next (some reason) f c s n =
        Keeps-then _ _
          (Keeps-bind-yields (IsBody p src account folder env.uid) _ _
            (ask-Keeps (src.fetch_body_preview account folder env.uid preview_bytes))
            (Yields-with_error (IsBody p src account folder env.uid) remote _
              (record { at = λ s body h. (preview_bytes, h) }))
            λ body i. cached-Keeps _ (stores uidvalidity now env body reason f (c reason refl) i))
          n

    store_messages-Keeps :
        (preview_bytes now uidvalidity : ℕ) (reasons : Reasons) (envs : List MessageEnvelope)
        (keep : List ℕ)
        → AllCleared p src account folder reasons
        → ((env : MessageEnvelope) → In env envs → IsFetched p src account folder env)
        → Keeps
            (OfTables P)
            (store_messages p src account folder preview_bytes now uidvalidity reasons envs keep)
    unfolding store_messages
    store_messages-Keeps preview_bytes now uidvalidity reasons [] keep c f = Keeps-pure keep
    store_messages-Keeps preview_bytes now uidvalidity reasons (env ∷ envs) keep c f =
        store_or_skip-Keeps preview_bytes now uidvalidity env _ _ (find_reason reasons env.uid)
          (f env (inl refl)) (c env.uid)
          (store_messages-Keeps preview_bytes now uidvalidity reasons envs keep c
            (λ x i. f x (inr i)))
          (store_messages-Keeps preview_bytes now uidvalidity reasons envs _ c (λ x i. f x (inr i)))

    load_folder-Keeps :
        (preview_bytes now max_candidates : ℕ) (remote_state : RemoteFolderState)
        (state : Option FolderState)
        → Keeps
            (OfTables P)
            (load_folder p src account folder preview_bytes now max_candidates remote_state state)
    unfolding load_folder
    load_folder-Keeps preview_bytes now max_candidates remote_state state =
        Keeps-bind _ _ (ask-Keeps _) λ discovered.
          Keeps-bind _ _ (plan_fetch-Keeps remote_state state discovered.uids) λ plan.
            Keeps-bind-yields (λ allowed. AllCleared p src account folder allowed.1) _ _
              (policy_allowed_uids-Keeps plan.0)
              (policy_allowed_uids-Yields p src account folder plan.0)
              λ allowed c.
                Keeps-bind-yields
                  (λ envs.
                    (env : MessageEnvelope) → In env envs → IsFetched p src account folder env)
                  _ _ (fetch_allowed-Keeps allowed.0)
                  (fetch_allowed-Yields p src account folder allowed.0)
                  λ envs f.
                    Keeps-bind _ _
                      (store_messages-Keeps preview_bytes now remote_state.uidvalidity allowed.1
                        envs plan.1 c f)
                      λ keep.
                        Keeps-then _ _ (reconcile-Keeps remote_state now discovered plan.1 keep)
                          (cached-Keeps _ (k.by_upsert_state _))

    pub refresh_folder-Keeps :
        (preview_bytes now max_candidates : ℕ)
        → Keeps (OfTables P) (refresh_folder p src account folder preview_bytes now max_candidates)
    unfolding refresh_folder confirm_folder folder_state
    refresh_folder-Keeps preview_bytes now max_candidates =
        Keeps-bind _ _ (cached-Keeps _ (query-Keeps P _)) λ state.
          Keeps-bind _ _ (ask-Keeps (src.select_folder account folder)) λ remote_state.
            Keeps-bind _ _ (reset_folder-Keeps remote_state state) λ state'.
              Keeps-if _ _ _
                (Keeps-then _ _
                  (cached-Keeps _ (k.by_mark_folder account.id folder remote_state.uidvalidity now))
                  (cached-Keeps _ (k.by_upsert_state _)))
                (load_folder-Keeps preview_bytes now max_candidates remote_state state')
