-- ===== src/Daemon/Diagnostics.antt =====
-- internal/daemon/daemon.go: the handlers of health, doctor and the provider probe. A handler gives the
-- envelope of a response with the code 200, or a failure.
use ksuite_mail.Common.{
  ℕ, Bool, true, false, not, Option, none, some, List, [], ◌∷◌, Result, ok, err, ◌>>=◌, ◌>>◌,
  if◌then◌else◌, Text, codes,
}
use ksuite_mail.Common.Ints.{ℤ, positive, pos_part}
use ksuite_mail.Strings.{Platform, trim_space, is_empty}
use ksuite_mail.Mail.{Account, Config}
use ksuite_mail.Settings.{Problem, validate}
use ksuite_mail.Secrets.{
  FileError, not_exist, permission, other_file_error, Store, LoadError, file_error,
  unsafe_permissions, unsupported_version, malformed, load, resolve,
}
use ksuite_mail.Api.{Envelope, ok_with_status, status_ok}
use ksuite_mail.Api.Reports.{DoctorReport, HealthInfo, ProbeImapRequest, ProbeImapResponse}
use ksuite_mail.Doctor.{Deployment}
use ksuite_mail.Doctor
use ksuite_mail.Refresh.Source.{Source, source_unavailable}
use ksuite_mail.Probe.Run.{run_imap}
use ksuite_mail.Daemon.Access.{account_by_id}
use ksuite_mail.Daemon.Server.{Failure, failure, internal_error, bad_request}

-- The deployment that the options point at, the text of an error of the operating system, and what
-- probeSourceForConfig returns: `ok none` without a factory, and an error of the factory's.
pub record Front : Type 0 where
  pub deployment : Deployment
  pub file_text : FileError → Text
  pub probe_source : Result (Unit {0}) (Option Source)

abbrev pub Response : Type 0 → Type 0
Response R = Result Failure (Envelope R)

-- writeOK, with api.OK
abbrev pub write_ok : {R : Type 0} → R → Response R
write_ok payload = ok (ok_with_status status_ok payload [])

abbrev pub check_that : Bool → Failure → Result Failure (Unit {0})
check_that true f = ok tt
check_that false f = err f

abbrev pub method_failure : Text → Failure
method_failure message = failure 405 (codes "method_not_allowed") message

-- handleHealth
unfoldable pub handle_health : Bool → Response HealthInfo
handle_health is_get = do
  check_that is_get (method_failure (codes "use GET for /v1/health"))
  write_ok (record { status = codes "ok" })

-- handleDoctor
unfoldable pub handle_doctor : Front → Bool → Response DoctorReport
handle_doctor front is_post = do
  check_that is_post (method_failure (codes "use POST for /v1/doctor"))
  write_ok (Doctor.run front.deployment)

-- handleNotFound
unfoldable pub handle_not_found : Response (Unit {0})
handle_not_found = err (failure 404 (codes "not_found") (codes "unknown endpoint"))

abbrev pub valid_config : (List Problem → Text) → Config → List Problem → Result Text Config
valid_config text cfg [] = ok cfg
valid_config text cfg (x ∷ xs) = err (text (x ∷ xs))

abbrev pub decoded_config : Deployment → Result Text Config → Result Text Config
decoded_config d (err e) = err e
decoded_config d (ok cfg) = valid_config d.problems_text cfg (validate cfg)

abbrev pub read_config : Front → Result FileError Text → Result Text Config
read_config front (err e) = err (front.file_text e)
read_config front (ok text) = decoded_config front.deployment (front.deployment.decode_config text)

-- loadConfig
unfoldable pub load_config : Front → Result Text Config
load_config front = read_config front front.deployment.config_file

pub data CredentialError : Type 0 where
  load_error : LoadError → CredentialError
  credential_missing : CredentialError

abbrev pub found_credential : Option Text → Result CredentialError (Unit {0})
found_credential none = err credential_missing
found_credential (some secret) = ok tt

abbrev pub stored_credential : Account → Result LoadError Store → Result CredentialError (Unit {0})
stored_credential acct (err e) = err (load_error e)
stored_credential acct (ok store) = found_credential (resolve store acct.password_ref.id)

-- verifyProbeCredential
unfoldable pub verify_probe_credential : Front → Account → Result CredentialError (Unit {0})
verify_probe_credential front acct = stored_credential acct (load front.deployment.secrets_file)

-- probeCredentialErrorCode
unfoldable pub probe_credential_error_code : CredentialError → Text
probe_credential_error_code credential_missing = codes "credential_missing"
probe_credential_error_code (load_error (file_error not_exist)) = codes "secrets_missing"
probe_credential_error_code (load_error (file_error permission)) = codes "secrets_unreadable"
probe_credential_error_code (load_error (file_error other_file_error)) = codes "secrets_unreadable"
probe_credential_error_code (load_error unsafe_permissions) = codes "secrets_unsafe_permissions"
probe_credential_error_code (load_error unsupported_version) = codes "secrets_bad_version"
probe_credential_error_code (load_error malformed) = codes "secrets_malformed"

abbrev pub or_else : {E A : Type 0} → (E → Failure) → Result E A → Result Failure A
or_else f (ok a) = ok a
or_else f (err e) = err (f e)

abbrev pub found_or : {A : Type 0} → Failure → Option A → Result Failure A
found_or f none = err f
found_or f (some a) = ok a

abbrev pub credential_failure : CredentialError → Failure
credential_failure e =
    failure 424 (probe_credential_error_code e) (codes "selected account credential is unavailable")

-- handleProbeIMAP, from the decoded body. The context's deadline shows as an error of the source.
unfoldable pub handle_probe_imap :
    Platform → Front → Bool → Result Text ProbeImapRequest → Response ProbeImapResponse
handle_probe_imap p front is_post body = do
  check_that is_post (method_failure (codes "use POST for /v1/probe/imap"))
  req ← or_else bad_request body
  check_that (not (is_empty (trim_space req.account)))
      (failure 400 (codes "missing_account") (codes "account is required"))
  cfg ← or_else internal_error (load_config front)
  acct ←
      found_or (failure 404 (codes "unknown_account") (codes "account not found"))
        (account_by_id cfg (trim_space req.account))
  or_else credential_failure (verify_probe_credential front acct)
  src ←
      or_else (λ _. failure 500 (codes "source_unavailable") (codes "mail source is unavailable"))
        front.probe_source
  write_ok (run_imap p acct src)

-- probeTimeout, where 18 seconds are the default
unfoldable pub probe_timeout : ℤ → ℕ
probe_timeout configured = if positive configured then pos_part configured else 18_000_000_000

-- UnavailableSourceFactory
unfoldable pub unavailable_source : Source
unavailable_source = record {
  capabilities = λ acct. err source_unavailable;
  folders = λ acct. err source_unavailable;
  select_folder = λ acct folder. err source_unavailable;
  search_allowed = λ acct folder header value scope. err source_unavailable;
  list_uids = λ acct folder scope. err source_unavailable;
  fetch_headers = λ acct folder uids. err source_unavailable;
  fetch_envelopes = λ acct folder uids. err source_unavailable;
  fetch_seen_state = λ acct folder uid. err source_unavailable;
  fetch_body_preview = λ acct folder uid n. err source_unavailable;
  fetch_body_preview_and_seen_state = λ acct folder uid n. err source_unavailable;
}
