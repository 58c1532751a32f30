-- ===== src/Bootstrap/Whole.antt =====
-- internal/bootstrap/bootstrap.go: what holds of the two files after a run, however it ends.
use ksuite_mail.Common.{
  ◌≡◌, ap, sym, subst, Bool, true, false, Option, none, some, List, [], ◌∷◌, ok, ok_injective, Text,
  same,
}
use ksuite_mail.Mail.{Account, Config}
use ksuite_mail.Settings.{validate, Problem}
use ksuite_mail.Secrets.{Store}
use ksuite_mail.Actions.Triples.{
  Triple, Triple-weaken, Triple-pure, Triple-lift, Triple-if, Triple-bind, Triple-then,
}
use ksuite_mail.Layout.{config_file, secrets_file, config_file_spec, secrets_file_spec}
use ksuite_mail.Bootstrap.Host.{Host, Outside}
use ksuite_mail.Bootstrap.Files.{starter, write_secret_store, write_config, encoded}
use ksuite_mail.Bootstrap.Accounts.{
  AccountSeed, Prompter, account_of, checked_seed, build_account, ensure_boundary_config,
  ensure_boundary_secrets,
}
use ksuite_mail.Bootstrap.Run.{ensure_boundary}
use ksuite_mail.Bootstrap.Views.{View, view, Of, written, normalize_perms-Of}
use ksuite_mail.Bootstrap.Bound.{IsCodec, AllStored, IsBound, IsLoadedConfig, IsLoadedStore}
use ksuite_mail.Bootstrap.Configured.{validate-starter}
use ksuite_mail.Bootstrap.Kept.{
  load_config-Of, load_secrets-Of, write_and_normalize, Added, ensure_account-Of,
}

module _ (o : Outside) (codec : IsCodec o) where
  abbrev pub Safe : Host → Type 0
  Safe = Of (IsBound o)

  starter-IsBound :
      (text : Text) (v : View)
      → o.starter_document ≡ some text
      → IsBound o (written config_file text v)
  unfolding same
  starter-IsBound text v e = record {
    bound = λ t cfg r d.
        let back = codec.document text e in
        let q : starter ≡ cfg = cc in
        subst
          (λ (c : Config). (validate c ≡ []) × AllStored o (written config_file text v) c.accounts)
          q (validate-starter, tt);
  }

  -- Where no secrets are stored, no account is configured.
  fresh_all :
      (text : Text) (v : View) (accounts : List Account)
      → v secrets_file ≡ none
      → AllStored o v accounts
      → AllStored o (written secrets_file text v) accounts
  fresh_all text v [] e h = tt
  fresh_all text v (a ∷ accounts) e ((secret, (t, s, r, _, _, _)), h) = absurd (nothing r)
    where
      nothing : v secrets_file ≡ some t → ⊥
      nothing r' = cc

  fresh-IsBound :
      (text : Text) (v : View)
      → v secrets_file ≡ none
      → IsBound o v
      → IsBound o (written secrets_file text v)
  unfolding same
  fresh-IsBound text v e b = record {
    bound = λ t cfg r d.
        let (valid, all_stored) = b.bound t cfg r d in
        (valid, fresh_all text v cfg.accounts e all_stored);
  }

  write_starter-Of : Triple Safe (write_config o o.starter_document) (λ _. Safe) Safe
  unfolding write_config
  write_starter-Of =
      Triple-bind Safe (λ t h. Safe h × (encoded o o.starter_document ≡ ok t)) (λ _. Safe) Safe _ _
        (Triple-lift Safe Safe _ (λ h v. v))
        λ text. record {
          at = λ h (v, e).
              (write_and_normalize o codec (IsBound o) (IsBound o) config_file text _
                  config_file_spec
                  (λ v' b. starter-IsBound text v' (some_of o.starter_document text e)) (λ v' b. b)
                  (λ v' b. b)).at
                h v;
        }
    where
      some_of : (x : Option Text) (t : Text) → encoded o x ≡ ok t → x ≡ some t
      some_of none t h = cc
      some_of (some u) t h = ap (λ z. some z) (ok_injective h)

  ensure_boundary_config-Of : Triple Safe (ensure_boundary_config o) (λ _. Safe) Safe
  unfolding ensure_boundary_config
  ensure_boundary_config-Of =
      Triple-bind Safe (λ p h. IsBound o (view h) × IsLoadedConfig o p (view h)) (λ _. Safe) Safe _
        _ (load_config-Of o codec (IsBound o))
        λ p.
          Triple-then _ Safe (λ _. Safe) Safe _ _
            (Triple-if _ (λ _. Safe) Safe p.1 _ _
              (Triple-weaken Safe _ (λ _. Safe) (λ _. Safe) Safe Safe _ (λ h v. v.0.0) (λ _ h v. v)
                (λ h v. v) (normalize_perms-Of o (IsBound o) config_file_spec))
              (Triple-weaken Safe _ (λ _. Safe) (λ _. Safe) Safe Safe _ (λ h v. v.0.0) (λ _ h v. v)
                (λ h v. v) write_starter-Of))
            (Triple-pure Safe (λ _. Safe) Safe _ (λ h v. v))

  write_fresh-Of :
      (store : Store)
      → Triple
          (Of (λ v. IsBound o v × (v secrets_file ≡ none)))
          (write_secret_store o store)
          (λ _. Safe)
          Safe
  unfolding write_secret_store
  write_fresh-Of store =
      write_and_normalize o codec (λ v. IsBound o v × (v secrets_file ≡ none)) (IsBound o)
        secrets_file _ _ secrets_file_spec
        (λ v (b, e). fresh-IsBound (o.encode_secrets store) v e b) (λ v x. x.0) (λ v x. x)

  is_fresh :
      (p : Store × Bool) (v : View) → IsLoadedStore o p v → p.1 ≡ false → v secrets_file ≡ none
  is_fresh (s, true) v l e = cc
  is_fresh (s, false) v l e = l.0

  ensure_boundary_secrets-Of : Triple Safe (ensure_boundary_secrets o) (λ _. Safe) Safe
  unfolding ensure_boundary_secrets
  ensure_boundary_secrets-Of =
      Triple-bind Safe (λ p h. IsBound o (view h) × IsLoadedStore o p (view h)) (λ _. Safe) Safe _ _
        (load_secrets-Of o codec (IsBound o))
        λ p.
          Triple-then _ Safe (λ _. Safe) Safe _ _
            (Triple-if _ (λ _. Safe) Safe p.1 _ _
              (Triple-weaken Safe _ (λ _. Safe) (λ _. Safe) Safe Safe _ (λ h v. v.0.0) (λ _ h v. v)
                (λ h v. v) (normalize_perms-Of o (IsBound o) secrets_file_spec))
              (Triple-weaken (Of (λ v. IsBound o v × (v secrets_file ≡ none))) _ (λ _. Safe)
                (λ _. Safe) Safe Safe _ (λ h v. (v.0.0, is_fresh p (view h) v.0.1 v.1)) (λ _ h v. v)
                (λ h v. v) (write_fresh-Of p.0)))
            (Triple-pure Safe (λ _. Safe) Safe _ (λ h v. v))

  -- What has been reached with and without an account.
  abbrev pub Reached : Prompter → Option AccountSeed → View → Type 0
  Reached prompt none v = IsBound o v
  Reached prompt (some seed) v = IsBound o v × Added o codec prompt (account_of seed) v

  build_account_same :
      (seed : AccountSeed) (acct : Account) → build_account seed ≡ ok acct → account_of seed ≡ acct
  unfolding build_account
  build_account_same seed acct h = checked (validate _) h
    where
      checked :
          (l : List Problem) → checked_seed (account_of seed) l ≡ ok acct → account_of seed ≡ acct
      checked [] h' = ok_injective h'
      checked (x ∷ xs) h' = cc

  pub ensure_boundary-Of :
      (prompt : Prompter) (seed : Option AccountSeed)
      → Triple Safe (ensure_boundary o prompt seed) (λ _. Of (Reached prompt seed)) Safe
  unfolding ensure_boundary
  ensure_boundary-Of prompt none =
      Triple-bind Safe (λ _. Safe) (λ _. Safe) Safe _ _ ensure_boundary_config-Of
        λ c.
          Triple-bind Safe (λ _. Safe) (λ _. Safe) Safe _ _ ensure_boundary_secrets-Of
            λ s. Triple-pure Safe (λ _. Safe) Safe _ (λ h v. v)
  ensure_boundary-Of prompt (some seed) =
      Triple-bind Safe (λ acct h. Safe h × (build_account seed ≡ ok acct))
        (λ _. Of (Reached prompt (some seed))) Safe _ _ (Triple-lift Safe Safe _ (λ h v. v))
        λ acct.
          Triple-bind _ (λ _ h. Of (Reached prompt (some seed)) h)
            (λ _. Of (Reached prompt (some seed))) Safe _ _
            (record {
              at = λ h (v, e).
                  (Triple-weaken Safe Safe (λ _. Of (Added o codec prompt acct))
                      (λ _. Of (Reached prompt (some seed))) Safe Safe _ (λ s x. x)
                      (λ _ s (secret, a, c).
                        subst (λ x. Of (λ w. IsBound o w × Added o codec prompt x w) s)
                          (sym (build_account_same seed acct e)) (c.0, (secret, a, c)))
                      (λ s x. x) (ensure_account-Of o codec prompt acct)).at
                    h v;
            })
            λ created.
              Triple-pure (Of (Reached prompt (some seed))) (λ _. Of (Reached prompt (some seed)))
                Safe _ (λ h v. v)
