-- ===== src/Bootstrap/Kept.antt =====
-- internal/bootstrap/bootstrap.go: what holds of the two files throughout a run.
use ksuite_mail.Common.{ℕ, ◌≡◌, ap, Bool, Option, none, some, Result, ok, ok_injective, Text}
use ksuite_mail.Mail.{Account, Config}
use ksuite_mail.Secrets.{Store}
use ksuite_mail.Actions.{lift, ◌>>=◌, ◌>>◌}
use ksuite_mail.Actions.Triples.{
  Triple, Triple-weaken, Triple-pure, Triple-raise, Triple-lift, Triple-if, Triple-bind,
  Triple-then,
}
use ksuite_mail.Layout.{FileSpec, config_file, secrets_file, config_file_spec, secrets_file_spec}
use ksuite_mail.Bootstrap.Host.{Host, BootError, Outside, write_file_atomic, normalize_perms}
use ksuite_mail.Bootstrap.Files.{
  starter, new_secret_store, load_or_seed_config, load_or_init_secrets, write_secret_store,
  write_config, encoded, insert_secret, decoded_config, decoded_store,
}
use ksuite_mail.Bootstrap.Accounts.{
  Prompter, ask_secret, add_account, store_account, ensure_account,
}
use ksuite_mail.Bootstrap.Views.{
  View, view, Of, written, normalize_perms-Of, write_file_atomic-Of, or_fresh-Ends, read_file-Reads,
}
use ksuite_mail.Bootstrap.Bound.{
  IsCodec, Stores, IsBound, IsLoadedConfig, IsLoadedStore, entry-IsBound, entry-Stores,
  entry-IsLoadedConfig,
}
use ksuite_mail.Bootstrap.Configured.{
  Configures, loaded-IsReady, add_account-IsReady, write-Stores, write-IsBound, write-Configures,
}

module _ (o : Outside) (codec : IsCodec o) where
  abbrev pub Bound : Host → Type 0
  Bound = Of (IsBound o)

  pub load_config-Of :
      (V : View → Type 0)
      → Triple
          (Of V)
          (load_or_seed_config o)
          (λ p h. V (view h) × IsLoadedConfig o p (view h))
          (Of V)
  unfolding load_or_seed_config
  load_config-Of V = record {
    at = λ h v.
        let parse : Text → Result BootError Config =
          λ text. decoded_config (o.decode_config text) in
        or_fresh-Ends o V config_file parse starter _
          (read_file-Reads o V config_file parse starter h v);
  }

  pub load_secrets-Of :
      (V : View → Type 0)
      → Triple
          (Of V)
          (load_or_init_secrets o)
          (λ p h. V (view h) × IsLoadedStore o p (view h))
          (Of V)
  unfolding load_or_init_secrets
  load_secrets-Of V = record {
    at = λ h v.
        let parse : Text → Result BootError Store = λ text. decoded_store (o.decode_secrets text) in
        or_fresh-Ends o V secrets_file parse new_secret_store _
          (read_file-Reads o V secrets_file parse new_secret_store h v);
  }

  -- A write, and the permissions after it.
  pub write_and_normalize :
      (V W : View → Type 0) (path contents : Text) (mode : ℕ) (spec : FileSpec)
      → ((v : View) → V v → W (written path contents v))
      → ((v : View) → V v → IsBound o v)
      → ((v : View) → W v → IsBound o v)
      → Triple
          (Of V)
          (write_file_atomic o path contents mode >> normalize_perms o spec)
          (λ _. Of W)
          Bound
  write_and_normalize V W path contents mode spec w bv bw =
      Triple-then (Of V) (Of W) (λ _. Of W) Bound _ _
        (Triple-weaken (Of V) (Of V) (λ _. Of W) (λ _. Of W) (Of V) Bound _ (λ h v. v) (λ _ h v. v)
          (λ h. bv (view h)) (write_file_atomic-Of o V W path contents mode w))
        (Triple-weaken (Of W) (Of W) (λ _. Of W) (λ _. Of W) (Of W) Bound _ (λ h v. v) (λ _ h v. v)
          (λ h. bw (view h)) (normalize_perms-Of o W spec))

  module _ (acct : Account) (secret : Text) where
    abbrev key : Text
    key = acct.password_ref.id

    -- After the secret is written, and after the configuration is.
    abbrev Entered : Config × Bool → View → Type 0
    Entered cfg v = IsBound o v × IsLoadedConfig o cfg v × Stores o v key secret

    abbrev pub Credentialed : View → Type 0
    Credentialed v = IsBound o v × Configures o acct.id v × Stores o v key secret

    abbrev Ready : Config × Bool → Store × Bool → View → Type 0
    Ready cfg store v = (IsBound o v × IsLoadedConfig o cfg v) × IsLoadedStore o store v

    write_secrets-Of :
        (cfg : Config × Bool) (store : Store × Bool)
        → Triple
            (Of (Ready cfg store))
            (write_secret_store o
              (record store.0 { secrets = insert_secret key secret store.0.secrets }))
            (λ _. Of (Entered cfg))
            Bound
    unfolding write_secret_store
    write_secrets-Of cfg store =
        write_and_normalize (Ready cfg store) (Entered cfg) secrets_file _ _ secrets_file_spec
          (λ v ((b, c), s). (
            entry-IsBound o codec key secret store v s b,
            entry-IsLoadedConfig o codec key secret store v cfg c,
            entry-Stores o codec key secret store v s,
          ))
          (λ v h. h.0.0) (λ v h. h.0)

    write_config-Of :
        (cfg : Config × Bool) (cfg' : Config)
        → add_account acct cfg.0 ≡ ok cfg'
        → Triple
            (Of (Entered cfg))
            (write_config o (o.encode_config cfg'))
            (λ _. Of Credentialed)
            Bound
    unfolding write_config
    write_config-Of cfg cfg' a =
        Triple-bind (Of (Entered cfg))
          (λ t h. Of (Entered cfg) h × (encoded o (o.encode_config cfg') ≡ ok t))
          (λ _. Of Credentialed) Bound _ _ (Triple-lift (Of (Entered cfg)) Bound _ (λ h v. v.0))
          λ text. record {
            at = λ h (v, e).
                (write_and_normalize (Entered cfg) Credentialed config_file text _ config_file_spec
                    (written_text text e) (λ v' x. x.0) (λ v' x. x.0)).at
                  h v;
          }
      where
        encoded_some : (x : Option Text) (t : Text) → encoded o x ≡ ok t → x ≡ some t
        encoded_some none t h = cc
        encoded_some (some u) t h = ap (λ z. some z) (ok_injective h)

        written_text :
            (text : Text)
            → encoded o (o.encode_config cfg') ≡ ok text
            → (v : View) → Entered cfg v
            → Credentialed (written config_file text v)
        written_text text e v (b, c, s) =
            let q = encoded_some (o.encode_config cfg') text e in
            let (ready, has) =
              add_account-IsReady o v acct cfg.0 cfg' secret (loaded-IsReady o v cfg b c) s a in
            (
              write-IsBound o codec cfg' text q v ready,
              write-Configures o codec cfg' text q v acct.id has,
              write-Stores o codec cfg' text q v key secret s,
            )

    store_account-Of :
        (prompt : Prompter) (cfg : Config × Bool) (store : Store × Bool)
        → Triple
            (Of (Ready cfg store))
            (store_account o prompt acct cfg store secret)
            (λ _. Of Credentialed)
            Bound
    unfolding store_account
    store_account-Of prompt cfg store =
        Triple-then (Of (Ready cfg store)) (Of (Entered cfg)) (λ _. Of Credentialed) Bound _ _
          (write_secrets-Of cfg store)
          (Triple-bind (Of (Entered cfg))
            (λ cfg' h. Of (Entered cfg) h × (add_account acct cfg.0 ≡ ok cfg'))
            (λ _. Of Credentialed) Bound _ _ (Triple-lift (Of (Entered cfg)) Bound _ (λ h v. v.0))
            λ cfg'. record {
              at = λ h (v, a).
                  (Triple-then (Of (Entered cfg)) (Of Credentialed) (λ _. Of Credentialed) Bound _ _
                      (write_config-Of cfg cfg' a)
                      (Triple-pure (Of Credentialed) (λ _. Of Credentialed) Bound _ (λ s x. x))).at
                    h v;
            })

  -- The account is configured, and the secret that was entered is stored.
  abbrev pub Added : Prompter → Account → View → Type 0
  Added prompt acct v =
      (secret : Text) × (ask_secret prompt acct.email ≡ ok secret) × Credentialed acct secret v

  asked_account-Of :
      (prompt : Prompter) (acct : Account) (cfg : Config × Bool) (store : Store × Bool)
      → Triple
          (Of (λ v. (IsBound o v × IsLoadedConfig o cfg v) × IsLoadedStore o store v))
          (lift (ask_secret prompt acct.email) >>= store_account o prompt acct cfg store)
          (λ _. Of (Added prompt acct))
          Bound
  asked_account-Of prompt acct cfg store =
      let P = Of (λ v. (IsBound o v × IsLoadedConfig o cfg v) × IsLoadedStore o store v) in
      Triple-bind P (λ secret h. P h × (ask_secret prompt acct.email ≡ ok secret))
        (λ _. Of (Added prompt acct)) Bound _ _ (Triple-lift P Bound _ (λ h v. v.0.0))
        λ secret. record {
          at = λ h (v, a).
              (Triple-weaken P P (λ _. Of (Credentialed acct secret)) (λ _. Of (Added prompt acct))
                  Bound Bound _ (λ s x. x) (λ _ s x. (secret, a, x)) (λ s x. x)
                  (store_account-Of acct secret prompt cfg store)).at
                h v;
        }

  -- ensureAccount keeps the files bound, and on success has added the account.
  pub ensure_account-Of :
      (prompt : Prompter) (acct : Account)
      → Triple Bound (ensure_account o prompt acct) (λ _. Of (Added prompt acct)) Bound
  unfolding ensure_account
  ensure_account-Of prompt acct =
      Triple-bind Bound (λ cfg h. IsBound o (view h) × IsLoadedConfig o cfg (view h))
        (λ _. Of (Added prompt acct)) Bound _ _ (load_config-Of (IsBound o))
        λ cfg.
          let P = λ (v : View). IsBound o v × IsLoadedConfig o cfg v in
          let Q = Of (λ v. (IsBound o v × IsLoadedConfig o cfg v)) in
          Triple-bind (Of P) (λ store h. P (view h) × IsLoadedStore o store (view h))
            (λ _. Of (Added prompt acct)) Bound _ _
            (Triple-weaken (Of P) (Of P) _ (λ store h. P (view h) × IsLoadedStore o store (view h))
              (Of P) Bound _ (λ h v. v) (λ _ h v. v) (λ h v. v.0) (load_secrets-Of P))
            λ store.
              Triple-if (λ h. P (view h) × IsLoadedStore o store (view h))
                (λ _. Of (Added prompt acct)) Bound _ _ _
                (Triple-raise _ (λ _. Of (Added prompt acct)) Bound _ (λ h v. v.0.0.0))
                (Triple-weaken _ _ (λ _. Of (Added prompt acct)) (λ _. Of (Added prompt acct)) Bound
                  Bound _ (λ h v. v.0) (λ _ h v. v) (λ h v. v)
                  (asked_account-Of prompt acct cfg store))
