-- ===== src/Doctor.antt =====
-- internal/doctor/doctor.go: the diagnostics of a deployment.
pub mod Sound
pub mod Secretless
use ksuite_mail.Common.{
  ℕ, Bool, true, false, not, ◌&&◌, Option, none, some, List, [], ◌∷◌, ◌++◌, Result, ok, err, all,
  if◌then◌else◌, Text, codes,
}
use ksuite_mail.Strings.{is_empty}
use ksuite_mail.Mail.{Account, Config}
use ksuite_mail.Settings.{Problem, validate}
use ksuite_mail.Secrets.{
  FileError, not_exist, permission, other_file_error, Store, LoadError, file_error,
  unsafe_permissions, unsupported_version, malformed, SecretsFile, load, resolve,
}
use ksuite_mail.Api.Reports.{CheckStatus, pass, fail, warn, skip, Check, DoctorReport}

-- Where the deployment is, and what is found there: the opening and the text of config.toml, config.Load
-- with the text of its error, the text of the problems that Validate joins, the secrets file, whether the
-- state path is a directory, and whether the probe file can be written in it.
pub record Deployment : Type 0 where
  pub config_file : Result FileError Text
  pub decode_config : Text → Result Text Config
  pub problems_text : List Problem → Text
  pub secrets_file : SecretsFile
  pub state_dir : Result FileError Bool
  pub writable : Bool

abbrev pub bare_check : Text → CheckStatus → Text → Check
bare_check name status code = record { name = name; status = status; detail = []; code = code }

abbrev pub detailed : Text → CheckStatus → Text → Text → Check
detailed name status code detail = record {
  name = name;
  status = status;
  detail = detail;
  code = code;
}

abbrev pub passing : Text → Check
passing name = bare_check name pass []

abbrev pub prerequisite_failed : Text → Check
prerequisite_failed name = bare_check name skip (codes "prerequisite_failed")

-- What a step adds to the checks, and what it found, if it did.
abbrev pub Step : Type 0 → Type 0
Step A = List Check × Option A

abbrev open_code : FileError → Text
open_code not_exist = codes "config_missing"
open_code permission = codes "config_unreadable"
open_code other_file_error = codes "config_unreadable"

abbrev pub unparsed : Text → Text → Step Config
unparsed code detail = (
  detailed (codes "config_parse") fail code detail
      ∷ prerequisite_failed (codes "config_validate")
      ∷ [],
  none,
)

abbrev pub validated : (List Problem → Text) → Config → List Problem → Step Config
validated text cfg [] =
    (passing (codes "config_parse") ∷ passing (codes "config_validate") ∷ [], some cfg)
validated text cfg (x ∷ xs) = (
  passing (codes "config_parse")
      ∷ detailed (codes "config_validate") fail (codes "config_invalid") (text (x ∷ xs))
      ∷ [],
  none,
)

abbrev pub decoded : Deployment → Result Text Config → Step Config
decoded d (err text) = unparsed (codes "config_parse_error") text
decoded d (ok cfg) = validated d.problems_text cfg (validate cfg)

abbrev pub opened : Deployment → Result FileError Text → Step Config
opened d (err e) = unparsed (open_code e) (codes "could not open config.toml")
opened d (ok text) = decoded d (d.decode_config text)

-- checkConfig. A configuration that is not valid is returned too, but not used.
unfoldable pub check_config : Deployment → Step Config
unfolding validate
check_config d = opened d d.config_file

-- secretsErrorCode
unfoldable pub secrets_error_code : LoadError → Text
secrets_error_code (file_error not_exist) = codes "secrets_missing"
secrets_error_code (file_error permission) = codes "secrets_unreadable"
secrets_error_code (file_error other_file_error) = codes "secrets_unreadable"
secrets_error_code unsafe_permissions = codes "secrets_unsafe_permissions"
secrets_error_code unsupported_version = codes "secrets_bad_version"
secrets_error_code malformed = codes "secrets_malformed"

abbrev pub loaded : Result LoadError Store → Step Store
loaded (err e) = (
  detailed (codes "secrets_file") fail (secrets_error_code e) (codes "secrets file is unusable")
      ∷ [],
  none,
)
loaded (ok store) = (passing (codes "secrets_file") ∷ [], some store)

-- checkSecrets
unfoldable pub check_secrets : Deployment → Step Store
unfolding load secrets_error_code
check_secrets d = loaded (load d.secrets_file)

abbrev pub credential_name : Account → Text
credential_name a = codes "credential:" ++ a.id

abbrev pub credential_check : Account → Option Text → Check
credential_check a (some secret) = passing (credential_name a)
credential_check a none =
    detailed (credential_name a) fail (codes "credential_missing")
      (codes "no secret stored for this account's password_ref.id")

unfoldable pub account_checks : Store → List Account → List Check
unfolding resolve
account_checks store [] = []
account_checks store (a ∷ accounts) =
    credential_check a (resolve store a.password_ref.id) ∷ account_checks store accounts

abbrev pub no_accounts : Check
no_accounts =
    detailed (codes "credentials") skip (codes "no_accounts") (codes "no accounts configured yet")

abbrev pub account_credentials : Store → List Account → List Check
account_credentials store [] = no_accounts ∷ []
account_credentials store (a ∷ accounts) = account_checks store (a ∷ accounts)

-- checkCredentials
unfoldable pub check_credentials : Option Config → Option Store → List Check
unfolding account_checks
check_credentials none store = prerequisite_failed (codes "credentials") ∷ []
check_credentials (some cfg) none = prerequisite_failed (codes "credentials") ∷ []
check_credentials (some cfg) (some store) = account_credentials store cfg.accounts

abbrev stat_code : FileError → Text
stat_code not_exist = codes "cache_dir_missing"
stat_code permission = codes "cache_unavailable"
stat_code other_file_error = codes "cache_unavailable"

abbrev pub cache_check : Bool → Result FileError Bool → Check
cache_check writable (err e) =
    detailed (codes "cache") fail (stat_code e) (codes "state directory is unavailable")
cache_check writable (ok is_dir) =
    if not is_dir
    then detailed (codes "cache") fail (codes "cache_not_a_directory")
        (codes "state path is not a directory")
    else if not writable
    then detailed (codes "cache") fail (codes "cache_not_writable")
        (codes "state directory is not writable")
    else passing (codes "cache")

-- checkCache
unfoldable pub check_cache : Deployment → Check
check_cache d = cache_check d.writable d.state_dir

abbrev pub connectivity : Check
connectivity =
    detailed (codes "imap_connectivity") skip (codes "deferred_to_probe")
      (codes "live IMAP connectivity is verified by the provider probe in a later slice")

abbrev pub is_fail : CheckStatus → Bool
is_fail pass = false
is_fail fail = true
is_fail warn = false
is_fail skip = false

abbrev pub no_failure : List Check → Bool
no_failure cs = all (λ (c : Check). not (is_fail c.status)) cs

abbrev pub after_secrets : Option Config → List Check → Step Store → List Check
after_secrets cfg rest (checks, store) = checks ++ (check_credentials cfg store ++ rest)

abbrev pub after_config : Step Store → List Check → Step Config → List Check
after_config store rest (checks, cfg) = checks ++ after_secrets cfg rest store

abbrev pub report_of : List Check → DoctorReport
report_of checks = record { is_ok = no_failure checks; checks = checks }

-- Run
unfoldable pub run : Deployment → DoctorReport
run d =
    report_of (after_config (check_secrets d) (check_cache d ∷ connectivity ∷ []) (check_config d))
