-- ===== src/Refresh/Keeps.antt =====
-- internal/refresh/refresh.go: the UIDs that policyAllowedUIDs lets pass and the envelopes that are fetched, as a
-- refresh of a folder uses them.
use ksuite_mail.Common.{
  ℕ, ◌≡◌, refl, sym, ap, subst, Bool, true, false, ◌==◌, ◌⊎◌, inl, inr, Bool-cases, ok_injective,
  none, some, List, [], ◌∷◌, Result, ok, err, arith, In, Text, codes, same,
}
use ksuite_mail.Strings.{Platform, is_empty}
use ksuite_mail.Mail.{Account, MessageHeaders, MessageEnvelope, policy_domain}
use ksuite_mail.Policy.{domain_match}
use ksuite_mail.Actions.{continue, rename_error, pure, ◌>>=◌, with_error}
use ksuite_mail.Actions.Keeps.{Keeps, Yields}
use ksuite_mail.Cache.Tables.{Tables, FolderState}
use ksuite_mail.Cache.Session.{Repository}
use ksuite_mail.Cache.Writes.{
  mark_folder_verified, mark_uids_verified, delete_by_folder, delete_missing_by_uid_set,
  delete_missing_by_uid_set_in_range, upsert_folder_state,
}
use ksuite_mail.Cache.Rules.{OfTables}
use ksuite_mail.Refresh.Source.{Source, SourceError, remote}
use ksuite_mail.Refresh.Folder.{fetch_allowed}
use ksuite_mail.Refresh.Allowed.{
  Reasons, find_reason, set_reasons, header_envelope, allow_headers, policy_allowed_uids,
  sort_allowed,
}

some_injective : {A : Type 0} {a b : A} → some a ≡ some b → a ≡ b
some_injective {a = a} e = ap (λ o. elim o [ some x ↦ x | none ↦ a ]) e

-- A pair whose first component is known.
pair_known : (v : Bool × Text) → v.0 ≡ true → v ≡ (true, v.1)
pair_known (b, t) e = ap (λ x. (x, t)) e

-- The methods by which a refresh changes the tables, apart from the storing of a message.
pub record IsKept (P : Tables → Type 0) : Type 0 where
  pub by_mark_folder :
      (account folder : Text) (uidvalidity now : ℕ)
      → Keeps (OfTables P) (mark_folder_verified account folder uidvalidity now)
  pub by_mark_uids :
      (account folder : Text) (uidvalidity : ℕ) (uids : List ℕ) (now : ℕ)
      → Keeps (OfTables P) (mark_uids_verified account folder uidvalidity uids now)
  pub by_delete_folder :
      (account folder : Text) → Keeps (OfTables P) (delete_by_folder account folder)
  pub by_delete_missing :
      (account folder : Text) (keep : List ℕ)
      → Keeps (OfTables P) (delete_missing_by_uid_set account folder keep)
  pub by_delete_in_range :
      (account folder : Text) (keep : List ℕ) (min_uid max_uid : ℕ)
      → Keeps (OfTables P) (delete_missing_by_uid_set_in_range account folder keep min_uid max_uid)
  pub by_upsert_state : (fs : FolderState) → Keeps (OfTables P) (upsert_folder_state fs)

module _ (p : Platform) (src : Source) (account : Account) (folder : Text) where
  -- The policy lets the message with this UID pass for this reason: the account has no domain policy,
  -- or the headers that the source gives for the UID match.
  abbrev pub IsCleared : ℕ → Text → Type 0
  IsCleared uid reason =
      (same account.policy policy_domain ≡ false)
      ⊎ ((uids : List ℕ) × (headers : List MessageHeaders) × (h : MessageHeaders)
          × (src.fetch_headers account folder uids ≡ ok headers)
          × In h headers
          × (h.uid ≡ uid)
          × (domain_match p account (header_envelope h) ≡ (true, reason)))

  -- The envelope is one that the source gave.
  abbrev pub IsFetched : MessageEnvelope → Type 0
  IsFetched env =
      (uids : List ℕ) × (envelopes : List MessageEnvelope) × (src.fetch_envelopes account folder
          uids
        ≡ ok envelopes)
      × In env envelopes

  -- The body is the preview, of some length, that the source gave for the UID.
  abbrev pub IsBody : ℕ → Text → Type 0
  IsBody uid body = (n : ℕ) × (src.fetch_body_preview account folder uid n ≡ ok body)

  abbrev pub AllCleared : Reasons → Type 0
  AllCleared reasons =
      (uid : ℕ) (reason : Text) → find_reason reasons uid ≡ some reason → IsCleared uid reason

  set_reasons-AllCleared :
      (reason : Text) (uids : List ℕ) (reasons : Reasons)
      → same account.policy policy_domain ≡ false
      → AllCleared (set_reasons reason uids reasons)
  set_reasons-AllCleared reason uids reasons full uid reason' h = inl full

  nil-AllCleared : AllCleared []
  unfolding find_reason
  nil-AllCleared uid reason h = cc

  cons-AllCleared :
      (uid : ℕ) (reason : Text) (reasons : Reasons)
      → IsCleared uid reason
      → AllCleared reasons
      → AllCleared ((uid, reason) ∷ reasons)
  unfolding find_reason
  cons-AllCleared uid reason reasons c a uid' reason' h = elim (Bool-cases (uid == uid')) [
    | inl e ↦
        subst (λ u. IsCleared u reason') (ground arith)
          (subst (λ t. IsCleared uid t) (some_injective (rw e at h)) c)
    | inr e ↦ a uid' reason' (rw e at h)
  ]

  allow_headers-AllCleared :
      (uids : List ℕ) (headers hs : List MessageHeaders) (out : List ℕ) (reasons : Reasons)
      → src.fetch_headers account folder uids ≡ ok headers
      → ((h : MessageHeaders) → In h hs → In h headers)
      → AllCleared reasons
      → AllCleared (allow_headers p account hs out reasons).1
  unfolding allow_headers
  allow_headers-AllCleared uids headers [] out reasons f i a = a
  allow_headers-AllCleared uids headers (h ∷ hs) out reasons f i a =
      elim (Bool-cases (domain_match p account (header_envelope h)).0) [
        | inl e ↦ rw e (
            allow_headers-AllCleared uids headers hs _ _ f (λ x j. i x (inr j))
              (cons-AllCleared h.uid _ reasons
                (inr (uids, headers, h, f, i h (inl refl), refl, pair_known _ e)) a))
        | inr e ↦
            rw e (allow_headers-AllCleared uids headers hs out reasons f (λ x j. i x (inr j)) a)
      ]

  -- What the policy lets pass carries a reason that it gave.
  pub policy_allowed_uids-Yields :
      (uids : List ℕ)
      → Yields (policy_allowed_uids p src account folder uids) λ allowed. AllCleared allowed.1
  unfolding policy_allowed_uids ◌>>=◌ with_error
  policy_allowed_uids-Yields uids = record { at = λ s a h. by_uids s a h }
    where
      by_headers :
          (s : Repository) (a : List ℕ × Reasons)
          → (res : Result SourceError (List MessageHeaders))
          → src.fetch_headers account folder uids ≡ res
          → (continue
              (rename_error remote res)
              (λ headers. pure (sort_allowed (allow_headers p account headers [] [])))
              s).0
            ≡ ok a
          → AllCleared a.1
      by_headers s a (ok headers) f h =
          subst (λ (x : List ℕ × Reasons). AllCleared x.1) (ok_injective h)
            (allow_headers-AllCleared uids headers headers [] [] f (λ x i. i) nil-AllCleared)
      by_headers s a (err e) f h = cc

      by_uids :
          (s : Repository) (a : List ℕ × Reasons)
          → (policy_allowed_uids p src account folder uids s).0 ≡ ok a
          → AllCleared a.1
      by_uids s a h = elim (Bool-cases (is_empty uids)) [
        | inl e ↦
            subst (λ (x : List ℕ × Reasons). AllCleared x.1) (ok_injective (rw e at h))
              nil-AllCleared
        | inr e ↦ elim (Bool-cases (same account.policy policy_domain)) [
          | inl d ↦ by_headers s a (src.fetch_headers account folder uids) refl (rw (e, d) at h)
          | inr d ↦
              subst (λ (x : List ℕ × Reasons). AllCleared x.1) (ok_injective (rw (e, d) at h))
                (set_reasons-AllCleared (codes "policy_full") uids [] d)
        ]
      ]

  pub fetch_allowed-Yields :
      (allowed : List ℕ)
      → Yields
          (fetch_allowed src account folder allowed)
          λ envs. (env : MessageEnvelope) → In env envs → IsFetched env
  unfolding with_error
  fetch_allowed-Yields allowed = record {
    at = λ s envs h. elim (Bool-cases (is_empty allowed)) [
      | inl e ↦
          subst (λ (es : List MessageEnvelope). (env : MessageEnvelope) → In env es → IsFetched env)
            (ok_injective (rw e at h)) (λ env i. absurd i)
      | inr e ↦ go s envs (src.fetch_envelopes account folder allowed) refl (rw e at h)
    ];
  }
    where
      go :
          (s : Repository) (envs : List MessageEnvelope)
          → (res : Result SourceError (List MessageEnvelope))
          → src.fetch_envelopes account folder allowed ≡ res
          → rename_error remote res ≡ ok envs
          → (env : MessageEnvelope) → In env envs
          → IsFetched env
      go s envs (ok es) f h = λ env i. (allowed, es, f, subst (In env) (sym (ok_injective h)) i)
      go s envs (err e) f h = cc
