-- ===== src/Refresh/Cleared.antt =====
-- internal/refresh/refresh.go: where the content of the cached rows comes from, through Refresh.
use ksuite_mail.Common.{ℕ, ◌≡◌, refl, ◌⊎◌, inl, inr, some, List, [], ◌∷◌, In, All, Text}
use ksuite_mail.Strings.{Platform}
use ksuite_mail.Mail.{Account, MessageEnvelope, CachedMessage, Config}
use ksuite_mail.Cache.Session.{Repository}
use ksuite_mail.Cache.Contents.{
  Content, content, Contents, AllContents, upsert_message-Keeps, delete_by_folder-Keeps,
  delete_missing_by_uid_set-Keeps, delete_missing_by_uid_set_in_range-Keeps,
  mark_folder_verified-Keeps, mark_uids_verified-Keeps, upsert_folder_state-Keeps,
}
use ksuite_mail.Refresh.Source.{Source}
use ksuite_mail.Refresh.Folder.{to_cached}
use ksuite_mail.Refresh.Cycle.{RefreshOptions, refresh}
use ksuite_mail.Refresh.Keeps.{IsKept, IsFetched, IsBody, IsCleared}
use ksuite_mail.Refresh.Whole.{refresh-Keeps}

-- The content, public id included, is that of an envelope that the source gave for a configured folder
-- of a configured account, with the body that the source gave for the envelope's UID, and with the
-- reason for which the policy let this UID pass.
abbrev pub IsApproved : Platform → Source → Config → Content → Type 0
IsApproved p src cfg c =
    (account : Account) × (folder : Text) × (env : MessageEnvelope) × (body : Text)
    × (reason : Text) × (uidvalidity : ℕ) × In account cfg.accounts
    × In folder account.folders
    × IsFetched p src account folder env
    × IsCleared p src account folder env.uid reason
    × IsBody p src account folder env.uid body
    × (c ≡ content (to_cached p account folder uidvalidity 0 env body reason))

-- A row of `rows` has the content.
abbrev pub IsKnown : List CachedMessage → Content → Type 0
IsKnown rows c = (row : CachedMessage) × In row rows × (c ≡ content row)

contents-IsKept : (Q : Content → Type 0) → IsKept (AllContents Q)
contents-IsKept Q = record {
  by_mark_folder = mark_folder_verified-Keeps Q;
  by_mark_uids = mark_uids_verified-Keeps Q;
  by_delete_folder = delete_by_folder-Keeps Q;
  by_delete_missing = delete_missing_by_uid_set-Keeps Q;
  by_delete_in_range = delete_missing_by_uid_set_in_range-Keeps Q;
  by_upsert_state = upsert_folder_state-Keeps Q;
}

known_rows :
    (Q : Content → Type 0) (rows : List CachedMessage)
    → ((row : CachedMessage) → In row rows → Q (content row))
    → Contents Q rows
known_rows Q [] h = tt
known_rows Q (x ∷ xs) h = (h x (inl refl), known_rows Q xs (λ row i. h row (inr i)))

-- After Refresh, with a result or with an error, the content of each cached row was cached before under
-- the same public id, or is that of a fetched envelope, under the public id of its account, folder and
-- UID and with the body fetched for this UID, which the policy of its account let pass: the account has
-- no domain policy, or the headers fetched for the envelope's UID match the policy, with the reason
-- stored.
pub refresh-IsApproved :
    (p : Platform) (cfg : Config) (src : Source) (opts : RefreshOptions) (r : Repository)
    → All
        (λ row. IsKnown r.messages (content row) ⊎ IsApproved p src cfg (content row))
        (refresh p cfg (some src) opts r).1.tables.messages
unfolding to_cached
refresh-IsApproved p cfg src opts r =
    (refresh-Keeps p src opts (AllContents Q) (contents-IsKept Q) cfg
        (λ account folder i j uidvalidity now env body reason f c b.
          upsert_message-Keeps Q _
            (inr (account, folder, env, body, reason, uidvalidity, i, j, f, c, b, refl)))).at
      r (known_rows Q r.messages (λ row i. inl (row, i, refl)))
  where
    Q : Content → Type 0
    Q c = IsKnown r.messages c ⊎ IsApproved p src cfg c
