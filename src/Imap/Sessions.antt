-- ===== src/Imap/Sessions.antt =====
-- internal/imapadapter/adapter.go: a session with the client of go-imap. The state is what the adapter
-- has done, the newest first; the client and the server behind it, which are parameters, answer by all
-- that has been done up to the question.
use ksuite_mail.Common.{
  ℕ, Bool, true, not, Option, none, some, List, ◌∷◌, Result, ok, err, if◌then◌else◌, Text,
}
use ksuite_mail.Common.Ints.{ℤ}
use ksuite_mail.Strings.{Platform}
use ksuite_mail.Mail.{Account}
use ksuite_mail.Actions.{Action, raise, lift, ◌>>=◌, ◌>>◌, with_error}
use ksuite_mail.Secrets.{Store, FileError, LoadError, file_error, SecretsFile, load, resolve}
use ksuite_mail.Refresh.Source.{SourceError, source_unavailable, permission_denied, other_error}
use ksuite_mail.Imap.Wire.{CommandError, normalize_command_error}

-- Dialling a host and a port, the commands of the client, and its Close.
pub data Event : Type 0 where
  dial : Text → ℤ → Event
  login : Text → Text → Event
  capability : Event
  list_folders : Event
  select : Text → (read_only condstore : Bool) → Event
  uid_search : Option (ℕ × ℕ) → Event
  fetch_flags : ℕ → Event
  fetch_body : ℕ → (peek : Bool) → (size : Option ℕ) → Event
  close : Event

pub record SelectData : Type 0 where
  pub uidvalidity : ℕ
  pub uidnext : ℕ
  pub highest_mod_seq : ℤ

abbrev pub Answer : Type 0 → Type 0
Answer A = List Event → Result CommandError A

pub record Client : Type 0 where
  pub dialled : Answer (Unit {0})
  pub logged_in : Answer (Unit {0})
  pub capabilities : Answer (List Text)
  pub has_condstore : List Text → Bool
  pub listed : Answer (List Text)
  pub selected : Answer SelectData
  pub searched : Answer (List ℕ)
  pub flags : Answer (List (List Text))
  pub bodies : Answer (List Text)

abbrev pub Session : Type 0 → Type 0
Session A = Action (List Event) SourceError A

-- secrets.Load and its error, as errors.Is sees it later.
abbrev file_kind : FileError → SourceError
file_kind FileError.permission = permission_denied
file_kind FileError.not_exist = other_error
file_kind FileError.other_file_error = other_error

abbrev load_kind : LoadError → SourceError
load_kind (file_error e) = file_kind e
load_kind LoadError.unsafe_permissions = other_error
load_kind LoadError.unsupported_version = other_error
load_kind LoadError.malformed = other_error

abbrev resolved : Option Text → Result SourceError Text
resolved none = err source_unavailable
resolved (some password) = ok password

abbrev resolved_in : Account → Result LoadError Store → Result SourceError Text
resolved_in acct (err e) = err (load_kind e)
resolved_in acct (ok store) = resolved (resolve store acct.password_ref.id)

-- password
unfoldable pub password : SecretsFile → Account → Result SourceError Text
unfolding load resolve
password f acct = resolved_in acct (load f)

-- `acct.TLS == nil || !*acct.TLS`
abbrev pub without_tls : Account → Bool
without_tls acct = elim acct.tls [ none ↦ true | some on ↦ not on ]

module _ (p : Platform) (secrets : SecretsFile) (client : Client) where
  -- A command, and its error, normalized.
  unfoldable pub perform : {A : Type 0} → Event → Answer A → Session A
  unfolding with_error normalize_command_error
  perform e answer = with_error (normalize_command_error p) (λ h. (answer (e ∷ h), e ∷ h))

  abbrev close_on_error :
      Result SourceError (Unit {0}) → List Event → Result SourceError (Unit {0}) × List Event
  close_on_error (ok _) h = (ok tt, h)
  close_on_error (err e) h = (err e, close ∷ h)

  unfoldable pub log_in : Text → Text → Session (Unit {0})
  unfolding perform
  log_in username pass h =
      let (r, h') = perform (login username pass) client.logged_in h in close_on_error r h'

  -- connect
  unfoldable pub connect : Account → Session (Unit {0})
  unfolding ◌>>=◌ ◌>>◌ perform log_in password
  connect acct = if without_tls acct then raise source_unavailable else (do
    pass ← lift (password secrets acct)
    perform (dial acct.host acct.port) client.dialled
    log_in acct.username pass)

  -- `defer c.close()`
  unfoldable pub closing : {A : Type 0} → Session A → Session A
  closing body h = let (r, h') = body h in (r, close ∷ h')

  unfoldable pub with_session : {A : Type 0} → Account → Session A → Session A
  unfolding ◌>>◌ connect closing
  with_session acct body = connect acct >> closing body
