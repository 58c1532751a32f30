-- ===== src/Doctor/Secretless.antt =====
-- internal/doctor/doctor.go: no secret shows in a report.
use ksuite_mail.Common.{
  ◌≡◌, refl, ap, Bool, true, false, Option, none, some, List, [], ◌∷◌, ◌++◌, Result, ok, err, Text,
  codes,
}
use ksuite_mail.Mail.{Account, Config}
use ksuite_mail.Secrets.{LoadError, Store, SecretsFile, load, resolve}
use ksuite_mail.Api.Reports.{Check}
use ksuite_mail.Doctor.{
  Deployment, Step, check_config, check_secrets, loaded, credential_check, account_checks,
  account_credentials, check_credentials, check_cache, run, after_secrets, after_config, report_of,
  passing,
}

abbrev pub is_some {ℓ} : {A : Type ℓ} → Option A → Bool
is_some none = false
is_some (some a) = true

-- Two secrets files that load alike, and have secrets for the same ids.
abbrev pub SameIds : Result LoadError Store → Result LoadError Store → Type 0
SameIds (err e) (err f) = e ≡ f
SameIds (err e) (ok t) = ⊥
SameIds (ok s) (err f) = ⊥
SameIds (ok s) (ok t) = (id : Text) → is_some (resolve s id) ≡ is_some (resolve t id)

credential_check_same :
    (a : Account) (x y : Option Text)
    → is_some x ≡ is_some y
    → credential_check a x ≡ credential_check a y
credential_check_same a none none h = refl
credential_check_same a none (some t) h = cc
credential_check_same a (some s) none h = cc
credential_check_same a (some s) (some t) h = refl

account_checks_same :
    (s t : Store) (accounts : List Account)
    → ((id : Text) → is_some (resolve s id) ≡ is_some (resolve t id))
    → account_checks s accounts ≡ account_checks t accounts
unfolding account_checks
account_checks_same s t [] h = refl
account_checks_same s t (a ∷ accounts) h =
    rw (credential_check_same a _ (resolve t a.password_ref.id) (h a.password_ref.id)) (
      ap (λ cs. credential_check a (resolve t a.password_ref.id) ∷ cs)
        (account_checks_same s t accounts h))

account_credentials_same :
    (s t : Store) (accounts : List Account)
    → ((id : Text) → is_some (resolve s id) ≡ is_some (resolve t id))
    → account_credentials s accounts ≡ account_credentials t accounts
account_credentials_same s t [] h = refl
account_credentials_same s t (a ∷ accounts) h = account_checks_same s t (a ∷ accounts) h

after_secrets_same :
    (cfg : Option Config) (rest : List Check) (r q : Result LoadError Store)
    → SameIds r q
    → after_secrets cfg rest (loaded r) ≡ after_secrets cfg rest (loaded q)
unfolding check_credentials
after_secrets_same cfg rest (err e) (err f) h = ap (λ x. after_secrets cfg rest (loaded (err x))) h
after_secrets_same cfg rest (err e) (ok t) h = absurd h
after_secrets_same cfg rest (ok s) (err f) h = absurd h
after_secrets_same none rest (ok s) (ok t) h = refl
after_secrets_same (some cfg) rest (ok s) (ok t) h =
    ap (λ cs. passing (codes "secrets_file") ∷ (cs ++ rest))
      (account_credentials_same s t cfg.accounts h)

after_config_same :
    (step : Step Config) (rest : List Check) (r q : Result LoadError Store)
    → SameIds r q
    → report_of (after_config (loaded r) rest step) ≡ report_of (after_config (loaded q) rest step)
after_config_same (checks, cfg) rest r q h =
    ap (λ cs. report_of (checks ++ cs)) (after_secrets_same cfg rest r q h)

-- The report depends on the secrets file only through how it loads and which ids it has: with other
-- secrets under the same ids the report is the same.
pub run_secretless :
    (d : Deployment) (other : SecretsFile)
    → SameIds (load other) (load d.secrets_file)
    → run (record d { secrets_file = other }) ≡ run d
unfolding run check_secrets check_config check_cache
run_secretless d other h = after_config_same (check_config d) _ (load other) (load d.secrets_file) h
