-- ===== src/Bootstrap/Bound.antt =====
-- internal/bootstrap: an account is configured only with its secret, wherever a run fails.
use ksuite_mail.Common.{
  ◌≡◌, refl, ap, sym, ◌∙◌, inl, inr, Bool, true, false, Bool-cases, Option, none, some, List, [],
  ◌∷◌, ok, ok_injective, if◌then◌else◌, Text, same, same→eq, same_refl, All, arith,
}
use ksuite_mail.Common.Ints.{pos}
use ksuite_mail.Mail.{Account, Config}
use ksuite_mail.Settings.{Problem, validate}
use ksuite_mail.Secrets.{Store, lookup_secret, resolve}
use ksuite_mail.Layout.{config_file, secrets_file}
use ksuite_mail.Bootstrap.Host.{Outside}
use ksuite_mail.Bootstrap.Files.{
  starter, new_secret_store, valid, decoded_config, decoded_store, insert_secret,
}
use ksuite_mail.Bootstrap.Views.{View, written, IsLoaded}

-- What the codecs are relied on for: a document decodes to what was encoded, a store to one with the
-- same version and the same secrets, and the starter document to the starter.
pub record IsCodec (o : Outside) : Type 0 where
  pub config : (c : Config) (t : Text) → o.encode_config c ≡ some t → o.decode_config t ≡ some c
  pub store :
      (s : Store)
      → (s' : Store) × (o.decode_secrets (o.encode_secrets s) ≡ some s')
        × (s'.version ≡ s.version)
        × ((id : Text) → resolve s' id ≡ resolve s id)
  pub document : (t : Text) → o.starter_document ≡ some t → o.decode_config t ≡ some starter

module _ (o : Outside) where
  -- The secrets file has the secret.
  abbrev pub Stores : View → Text → Text → Type 0
  Stores v id secret =
      (t : Text) × (s : Store) × (v secrets_file ≡ some t)
      × (o.decode_secrets t ≡ some s)
      × (s.version ≡ pos 1)
      × (resolve s id ≡ some secret)

  abbrev pub AllStored : View → List Account → Type 0
  AllStored v accounts =
      All (λ (a : Account). (secret : Text) × Stores v a.password_ref.id secret) accounts

  -- The configuration file, if it decodes, is valid and each of its accounts has its secret stored.
  pub record IsBound (v : View) : Type 0 where
    pub bound :
        (t : Text) (cfg : Config)
        → v config_file ≡ some t
        → o.decode_config t ≡ some cfg
        → (validate cfg ≡ []) × AllStored v cfg.accounts

  abbrev pub IsLoadedConfig : Config × Bool → View → Type 0
  IsLoadedConfig =
      IsLoaded o (λ v. Unit {0}) config_file (λ text. decoded_config (o.decode_config text)) starter

  abbrev pub IsLoadedStore : Store × Bool → View → Type 0
  IsLoadedStore =
      IsLoaded o (λ v. Unit {0}) secrets_file (λ text. decoded_store (o.decode_secrets text))
        new_secret_store

lookup_secret-insert_secret :
    (key secret id : Text) (l : List (Text × Text))
    → lookup_secret id (insert_secret key secret l)
      ≡ (if same key id then some secret else lookup_secret id l)
unfolding lookup_secret insert_secret
lookup_secret-insert_secret key secret id [] = refl
lookup_secret-insert_secret key secret id ((k, x) ∷ rest) =
    let ih = lookup_secret-insert_secret key secret id rest in
    elim (Bool-cases (same k key)) [
      | inl here ↦ rw (here, same→eq k key here) (ground arith)
      | inr there ↦ elim (Bool-cases (same key id)) [
        | inl e ↦ rw (there, sym (ap (same k) (same→eq key id e)) ∙ there, ih, e) refl
        | inr e ↦ rw (there, ih, e) refl
      ]
    ]

decoded_store_ok :
    (x : Option Store) (s : Store) → decoded_store x ≡ ok s → (x ≡ some s) × (s.version ≡ pos 1)
decoded_store_ok none s h = cc
decoded_store_ok (some y) s h = ground arith

pub decoded_config_ok :
    (x : Option Config) (cfg : Config)
    → decoded_config x ≡ ok cfg
    → (x ≡ some cfg) × (validate cfg ≡ [])
decoded_config_ok none cfg h = cc
decoded_config_ok (some y) cfg h = checked (validate y) refl h
  where
    checked :
        (l : List Problem)
        → validate y ≡ l
        → valid y l ≡ ok cfg
        → (◌≡◌ {A = Option Config} (some y) (some cfg)) × (validate cfg ≡ [])
    checked [] q h' = (ap (λ c. some c) (ok_injective h'), ap validate (sym (ok_injective h')) ∙ q)
    checked (x ∷ xs) q h' = cc

module _ (o : Outside) (codec : IsCodec o) where
  -- A stored secret stays stored, be it another's or replaced, and the one that is entered is stored.
  module _ (key secret : Text) (store : Store × Bool) where
    abbrev pub entered : Store
    entered = record store.0 { secrets = insert_secret key secret store.0.secrets }

    abbrev pub after_entry : View → View
    after_entry v = written secrets_file (o.encode_secrets entered) v

    store_version : (p : Store × Bool) (v : View) → IsLoadedStore o p v → p.0.version ≡ pos 1
    store_version (s, true) v (t, e, q) = (decoded_store_ok (o.decode_secrets t) s q).1
    store_version (s, false) v (e, q) = ap (λ (x : Store). x.version) q

    resolve-entered :
        (id : Text) → resolve entered id ≡ (if same key id then some secret else resolve store.0 id)
    unfolding resolve
    resolve-entered id = lookup_secret-insert_secret key secret id store.0.secrets

    after_entry_stores :
        (v : View) (id found : Text)
        → store.0.version ≡ pos 1
        → resolve entered id ≡ some found
        → Stores o (after_entry v) id found
    after_entry_stores v id found n r =
        let (s', d, m, same_ids) = codec.store entered in
        (o.encode_secrets entered, s', rw (same_refl secrets_file) refl, d, m ∙ n, same_ids id ∙ r)

    -- A secret that was stored is among those loaded.
    loaded_secret :
        (v : View) (id found : Text) (p : Store × Bool)
        → IsLoadedStore o p v
        → Stores o v id found
        → resolve p.0 id ≡ some found
    loaded_secret v id found (s, true) (t, e, q) (t', s', e', d, n, r) =
        let whole = (decoded_store_ok (o.decode_secrets t) s q).0 in cc
    loaded_secret v id found (s, false) (e, q) (t', s', e', d, n, r) = cc

    entered_stored :
        (v : View) (id found : Text)
        → IsLoadedStore o store v
        → Stores o v id found
        → (new : Text) × Stores o (after_entry v) id new
    entered_stored v id found l st = elim (Bool-cases (same key id)) [
      | inl e ↦ (
        secret,
        after_entry_stores v id secret (store_version store v l) (rw e at (resolve-entered id)),
      )
      | inr e ↦ (
        found,
        after_entry_stores v id found (store_version store v l)
            ((rw e at (resolve-entered id)) ∙ loaded_secret v id found store l st),
      )
    ]

    entered_all :
        (v : View) (accounts : List Account)
        → IsLoadedStore o store v
        → AllStored o v accounts
        → AllStored o (after_entry v) accounts
    entered_all v [] l h = tt
    entered_all v (a ∷ accounts) l ((found, st), h) =
        (entered_stored v a.password_ref.id found l st, entered_all v accounts l h)

    -- The write of the secrets.
    pub entry-IsBound :
        (v : View) → IsLoadedStore o store v → IsBound o v → IsBound o (after_entry v)
    unfolding same
    entry-IsBound v l b = record {
      bound = λ t cfg e d.
          let (valid_cfg, stored) = b.bound t cfg e d in
          (valid_cfg, entered_all v cfg.accounts l stored);
    }

    pub entry-Stores : (v : View) → IsLoadedStore o store v → Stores o (after_entry v) key secret
    entry-Stores v l =
        after_entry_stores v key secret (store_version store v l)
          (rw (same_refl key) at (resolve-entered key))

    pub entry-IsLoadedConfig :
        (v : View) (p : Config × Bool) → IsLoadedConfig o p v → IsLoadedConfig o p (after_entry v)
    unfolding same
    entry-IsLoadedConfig v (cfg, true) l = l
    entry-IsLoadedConfig v (cfg, false) l = l
