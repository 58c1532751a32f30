-- ===== src/Doctor/Sound.antt =====
-- internal/doctor/doctor.go: what a report that is OK says of the deployment.
use ksuite_mail.Common.{
  ◌≡◌, refl, sym, ◌∙◌, inl, inr, Bool, true, false, ◌&&◌, Bool-cases, some, Option-cases, List, [],
  ◌∷◌, ◌++◌, Result, ok, err, Text, All, all, arith, subst,
}
use ksuite_mail.Mail.{Account, Config}
use ksuite_mail.Settings.{Problem, validate}
use ksuite_mail.Secrets.{FileError, LoadError, Store, load, resolve}
use ksuite_mail.Api.Reports.{Check}
use ksuite_mail.Doctor.{
  Deployment, Step, opened, decoded, validated, check_config, check_secrets, loaded, account_checks,
  account_credentials, check_credentials, cache_check, check_cache, run, after_secrets,
  after_config, no_failure, connectivity,
}

-- The secret of each account is stored.
abbrev pub AllStored : Store → List Account → Type 0
AllStored store accounts =
    All (λ (a : Account). (secret : Text) × (resolve store a.password_ref.id ≡ some secret))
      accounts

abbrev pub IsConfigured : Deployment → Config → Type 0
IsConfigured d cfg =
    (text : Text) × (d.config_file ≡ ok text)
    × (d.decode_config text ≡ ok cfg)
    × (validate cfg ≡ [])

-- The configuration can be read and is valid, the secrets file loads and has the secret of each account,
-- and the state directory is a directory that can be written in.
abbrev pub IsDeployed : Deployment → Type 0
IsDeployed d =
    (cfg : Config) × (store : Store) × IsConfigured d cfg
    × (load d.secrets_file ≡ ok store)
    × AllStored store cfg.accounts
    × (d.state_dir ≡ ok true)
    × (d.writable ≡ true)

all-append : (f : Check → Bool) (cs ds : List Check) → all f (cs ++ ds) ≡ (all f cs && all f ds)
all-append f [] ds = refl
all-append f (c ∷ cs) ds = ground (arith, all-append f cs ds)

both : (a b : Bool) → (a && b) ≡ true → (a ≡ true) × (b ≡ true)
both true b h = (refl, h)
both false b h = cc

module _ (d : Deployment) where
  abbrev IsStep : Step Config → Type 0
  IsStep (checks, cfg) = no_failure checks ≡ true → (c : Config) × (cfg ≡ some c) × IsConfigured d c

  validated-IsStep :
      (text : Text) (cfg : Config) (problems : List Problem)
      → d.config_file ≡ ok text
      → d.decode_config text ≡ ok cfg
      → validate cfg ≡ problems
      → IsStep (validated d.problems_text cfg problems)
  validated-IsStep text cfg [] q e v h = (cfg, refl, (text, q, e, v))
  validated-IsStep text cfg (x ∷ xs) q e v h = cc

  decoded-IsStep :
      (text : Text) (r : Result Text Config)
      → d.config_file ≡ ok text
      → d.decode_config text ≡ r
      → IsStep (decoded d r)
  decoded-IsStep text (err e) q p h = cc
  decoded-IsStep text (ok cfg) q p h = validated-IsStep text cfg _ q p refl h

  opened-IsStep : (r : Result FileError Text) → d.config_file ≡ r → IsStep (opened d r)
  opened-IsStep (err e) q h = cc
  opened-IsStep (ok text) q h = decoded-IsStep text _ q refl h

  account_checks-AllStored :
      (store : Store) (accounts : List Account)
      → no_failure (account_checks store accounts) ≡ true
      → AllStored store accounts
  unfolding account_checks
  account_checks-AllStored store [] h = tt
  account_checks-AllStored store (a ∷ accounts) h =
      elim (Option-cases (resolve store a.password_ref.id)) [
        | inl e ↦ cc (rw e at h)
        | inr (secret, e) ↦ ((secret, e), account_checks-AllStored store accounts (rw e at h))
      ]

  account_credentials-AllStored :
      (store : Store) (accounts : List Account)
      → no_failure (account_credentials store accounts) ≡ true
      → AllStored store accounts
  account_credentials-AllStored store [] h = tt
  account_credentials-AllStored store (a ∷ accounts) h =
      account_checks-AllStored store (a ∷ accounts) h

  cache_fine :
      (r : Result FileError Bool)
      → d.state_dir ≡ r
      → no_failure (cache_check d.writable r ∷ connectivity ∷ []) ≡ true
      → (d.state_dir ≡ ok true) × (d.writable ≡ true)
  cache_fine (err e) q h = cc
  cache_fine (ok false) q h = cc
  cache_fine (ok true) q h = elim (Bool-cases d.writable) [
    | inl w ↦ (q, w)
    | inr w ↦ cc (rw w at h)
  ]

  secrets_fine :
      (cfg : Config) (r : Result LoadError Store)
      → load d.secrets_file ≡ r
      → no_failure (after_secrets (some cfg) (check_cache d ∷ connectivity ∷ []) (loaded r)) ≡ true
      → (store : Store) × (load d.secrets_file ≡ ok store)
        × AllStored store cfg.accounts
        × (d.state_dir ≡ ok true)
        × (d.writable ≡ true)
  unfolding check_credentials check_cache
  secrets_fine cfg (err e) q h = cc
  secrets_fine cfg (ok store) q h =
      let parts = both _ _ (sym (all-append _ (account_credentials store cfg.accounts) _) ∙ h) in
      let (dir, w) = cache_fine d.state_dir refl parts.1 in
      (store, q, account_credentials-AllStored store cfg.accounts parts.0, dir, w)

  config_fine :
      (step : Step Config)
      → IsStep step
      → no_failure
          (after_config (loaded (load d.secrets_file)) (check_cache d ∷ connectivity ∷ []) step)
        ≡ true
      → IsDeployed d
  config_fine (checks, cfg) s h =
      let parts = both _ _ (sym (all-append _ checks _) ∙ h) in
      let (c, e, configured) = s parts.0 in
      let (store, l, stored, dir, w) = secrets_fine c (load d.secrets_file) refl (
        subst
          (λ o.
            no_failure
              (after_secrets o (check_cache d ∷ connectivity ∷ []) (loaded (load d.secrets_file)))
            ≡ true)
          e parts.1) in
      (c, store, configured, l, stored, dir, w)

  -- A report is OK only where the deployment is ready: the configuration is read and valid, the secrets
  -- file loads and has the secret of each account, and the state directory can be written in.
  pub run-IsDeployed : (run d).is_ok ≡ true → IsDeployed d
  unfolding run check_secrets check_config
  run-IsDeployed h = config_fine (check_config d) (opened-IsStep d.config_file refl) h
