-- ===== src/Imap/Conduct.antt =====
-- internal/imapadapter/adapter.go: how the adapter behaves towards a server, whatever the server
-- answers.
use ksuite_mail.Common.{
  ℕ, ◌≡◌, inl, inr, Bool, true, false, Bool-cases, Result-cases, Option, List, [], ◌∷◌, Result, ok,
  err, Text,
}
use ksuite_mail.Strings.{Platform}
use ksuite_mail.Mail.{Account}
use ksuite_mail.Actions.{◌>>=◌, ◌>>◌, with_error, continue}
use ksuite_mail.Actions.Keeps.{Keeps, Keeps-pure, Keeps-if, Keeps-bind, Keeps-then}
use ksuite_mail.Secrets.{SecretsFile}
use ksuite_mail.Refresh.Source.{SourceError}
use ksuite_mail.Imap.Wire.{CommandError}
use ksuite_mail.Imap.Sessions.{
  Event, dial, login, capability, list_folders, select, uid_search, fetch_flags, fetch_body, close,
  Client, Answer, Session, password, without_tls, perform, log_in, connect, closing, with_session,
}
use ksuite_mail.Imap.Methods
use ksuite_mail.Imap.Calls.{
  Call, capabilities, folders, select_folder, list_uids, fetch_seen_state, fetch_body_preview,
  fetch_body_preview_and_seen_state, after_call, after_calls,
}

-- The commands that change nothing in a mailbox: a SELECT that is an EXAMINE, and of FETCH the flags or
-- a BODY.PEEK.
pub data IsQuery : Event → Type 0 where
  by_capability : IsQuery capability
  by_list : IsQuery list_folders
  by_examine : (folder : Text) (condstore : Bool) → IsQuery (select folder true condstore)
  by_search : (set : Option (ℕ × ℕ)) → IsQuery (uid_search set)
  by_flags : (uid : ℕ) → IsQuery (fetch_flags uid)
  by_peek : (uid : ℕ) (size : Option ℕ) → IsQuery (fetch_body uid true size)

-- No connection, a connection to the host of an account, or one that the account is logged in on.
pub data Phase : Type 0 where
  idle : Phase
  connected authenticated : Account → Phase

module _ (secrets : SecretsFile) (client : Client) where
  -- The protocol that the adapter keeps to: it dials the host of an account with TLS on, logs in with
  -- the secret of that account and no other, sends queries only when logged in, and closes.
  pub data Reaches : List Event → Phase → Type 0 where
    start : Reaches [] idle
    refused :
        {h : List Event} (acct : Account) (e : CommandError)
        → Reaches h idle
        → without_tls acct ≡ false
        → client.dialled (dial acct.host acct.port ∷ h) ≡ err e
        → Reaches (dial acct.host acct.port ∷ h) idle
    dialled :
        {h : List Event} (acct : Account)
        → Reaches h idle
        → without_tls acct ≡ false
        → client.dialled (dial acct.host acct.port ∷ h) ≡ ok tt
        → Reaches (dial acct.host acct.port ∷ h) (connected acct)
    logged_in :
        {h : List Event} (acct : Account) (pass : Text)
        → Reaches h (connected acct)
        → password secrets acct ≡ ok pass
        → client.logged_in (login acct.username pass ∷ h) ≡ ok tt
        → Reaches (login acct.username pass ∷ h) (authenticated acct)
    asked :
        {h : List Event} (acct : Account) (e : Event)
        → Reaches h (authenticated acct)
        → IsQuery e
        → Reaches (e ∷ h) (authenticated acct)
    rejected :
        {h : List Event} (acct : Account) (pass : Text) (e : CommandError)
        → Reaches h (connected acct)
        → password secrets acct ≡ ok pass
        → client.logged_in (login acct.username pass ∷ h) ≡ err e
        → Reaches (close ∷ login acct.username pass ∷ h) idle
    closed :
        {h : List Event} (acct : Account)
        → Reaches h (authenticated acct)
        → Reaches (close ∷ h) idle

module _ (p : Platform) (secrets : SecretsFile) (client : Client) where
  -- How `connect` may end.
  abbrev Connects : Account → Result SourceError (Unit {0}) × List Event → Type 0
  Connects acct (ok _, h) = Reaches secrets client h (authenticated acct)
  Connects acct (err _, h) = Reaches secrets client h idle

  log_in-Connects :
      (acct : Account) (pass : Text) (h : List Event)
      → Reaches secrets client h (connected acct)
      → password secrets acct ≡ ok pass
      → Connects acct (log_in p secrets client acct.username pass h)
  unfolding log_in perform with_error
  log_in-Connects acct pass h r e =
      elim (Result-cases (client.logged_in (login acct.username pass ∷ h))) [
        | inl (t, a) ↦ rw a (logged_in acct pass r e a)
        | inr (x, a) ↦ rw a (rejected acct pass x r e a)
      ]

  connect-Connects :
      (acct : Account) (h : List Event)
      → Reaches secrets client h idle
      → Connects acct (connect p secrets client acct h)
  unfolding connect ◌>>=◌ ◌>>◌ perform with_error
  connect-Connects acct h r = elim (Bool-cases (without_tls acct)) [
    | inl off ↦ rw off r
    | inr on ↦ rw on (elim (Result-cases (password secrets acct)) [
      | inr (x, e) ↦ rw e r
      | inl (pass, e) ↦ rw e (elim (Result-cases (client.dialled (dial acct.host acct.port ∷ h))) [
        | inr (x, a) ↦ rw a (refused acct x r on a)
        | inl (t, a) ↦ rw a (log_in-Connects acct pass _ (dialled acct r on a) e)
      ])
    ])
  ]

  -- What an action does when the account is logged in.
  abbrev Stays : {A : Type 0} → Account → Session A → Type 0
  Stays acct m = Keeps (λ h. Reaches secrets client h (authenticated acct)) m

  with_session_lem :
      {A : Type 0} (acct : Account) (body : Session A) (h : List Event)
      → Stays acct body
      → Reaches secrets client h idle
      → Reaches secrets client (with_session p secrets client acct body h).1 idle
  unfolding with_session ◌>>=◌ ◌>>◌ closing
  with_session_lem acct body h k r =
      ended (connect p secrets client acct h) (connect-Connects acct h r)
    where
      ended :
          (c : Result SourceError (Unit {0}) × List Event)
          → Connects acct c
          → Reaches secrets client (continue c.0 (λ _. closing p secrets client body) c.1).1 idle
      ended (ok t, h') s = closed acct (k.at h' s)
      ended (err e, h') s = s

  ask-Stays :
      {A : Type 0} (acct : Account) (e : Event) (answer : Answer A)
      → IsQuery e
      → Stays acct (perform p secrets client e answer)
  unfolding perform with_error
  ask-Stays acct e answer q = record { at = λ h s. asked acct e s q }

  condstore-Stays : (acct : Account) → Stays acct (Methods.condstore p secrets client)
  unfolding Methods.condstore
  condstore-Stays acct = record {
    at = λ h s. (ask-Stays acct capability client.capabilities by_capability).at h s;
  }

  examine-Stays :
      (acct : Account) (folder : Text) → Stays acct (Methods.examine p secrets client folder)
  unfolding Methods.examine
  examine-Stays acct folder = ask-Stays acct _ _ (by_examine folder false)

  seen_state-Stays :
      (acct : Account) (uid : ℕ) → Stays acct (Methods.seen_state p secrets client uid)
  unfolding Methods.seen_state
  seen_state-Stays acct uid = Keeps-bind _ _ (ask-Stays acct _ _ (by_flags uid)) λ buf. Keeps-pure _

  body_preview-Stays :
      (acct : Account) (uid max_bytes : ℕ)
      → Stays acct (Methods.body_preview p secrets client uid max_bytes)
  unfolding Methods.body_preview
  body_preview-Stays acct uid max_bytes =
      Keeps-bind _ _ (ask-Stays acct _ _ (by_peek uid (Methods.partial_size max_bytes)))
        λ buf. Keeps-pure _

  preview_between-Stays :
      (acct : Account) (uid max_bytes : ℕ) (before : Bool × Bool)
      → Stays acct (Methods.preview_between p secrets client uid max_bytes before)
  unfolding Methods.preview_between Methods.state_after
  preview_between-Stays acct uid max_bytes before =
      Keeps-if before.0 _ _
        (Keeps-bind _ _ (body_preview-Stays acct uid max_bytes) λ preview.
          Keeps-bind _ _ (seen_state-Stays acct uid)
            λ state. Keeps-if state.0 _ _ (Keeps-pure _) (Keeps-pure _))
        (Keeps-pure _)

  -- A call that begins with no connection ends with none.
  after_call-Reaches :
      (c : Call) (h : List Event)
      → Reaches secrets client h idle
      → Reaches secrets client (after_call p secrets client c h) idle
  unfolding after_call Methods.capabilities Methods.folders Methods.select_folder Methods.list_uids
      Methods.fetch_seen_state Methods.fetch_body_preview Methods.fetch_body_preview_and_seen_state
  after_call-Reaches (capabilities a) h r =
      with_session_lem a _ h (Keeps-bind _ _ (ask-Stays a _ _ by_capability) λ caps. Keeps-pure _) r
  after_call-Reaches (folders a) h r =
      with_session_lem a _ h (Keeps-bind _ _ (ask-Stays a _ _ by_list) λ listed. Keeps-pure _) r
  after_call-Reaches (select_folder a f) h r =
      with_session_lem a _ h
        (Keeps-bind _ _ (condstore-Stays a)
          λ on. Keeps-bind _ _ (ask-Stays a _ _ (by_examine f on)) λ d. Keeps-pure _)
        r
  after_call-Reaches (list_uids a f scope) h r =
      with_session_lem a _ h
        (Keeps-then _ _ (examine-Stays a f)
          (Keeps-bind _ _ (ask-Stays a _ _ (by_search _)) λ uids. Keeps-pure _))
        r
  after_call-Reaches (fetch_seen_state a f uid) h r =
      with_session_lem a _ h (Keeps-then _ _ (examine-Stays a f) (seen_state-Stays a uid)) r
  after_call-Reaches (fetch_body_preview a f uid n) h r =
      with_session_lem a _ h (Keeps-then _ _ (examine-Stays a f) (body_preview-Stays a uid n)) r
  after_call-Reaches (fetch_body_preview_and_seen_state a f uid n) h r =
      with_session_lem a _ h
        (Keeps-then _ _ (examine-Stays a f)
          (Keeps-bind _ _ (seen_state-Stays a uid) λ before. preview_between-Stays a uid n before))
        r

  calls_from :
      (cs : List Call) (h : List Event)
      → Reaches secrets client h idle
      → Reaches secrets client (after_calls p secrets client cs h) idle
  unfolding after_calls
  calls_from [] h r = r
  calls_from (c ∷ cs) h r = calls_from cs _ (after_call-Reaches c h r)

  -- Whatever methods but SearchAllowed, which has a connection of its own, are called in a row, and
  -- whatever the server answers, what the adapter does is a run of the protocol that ends with no
  -- connection open: every dial is for an account with TLS on, every login carries the secret of the
  -- account whose host was dialled, every command comes after a login that was accepted and leaves the
  -- mailbox as it is, and every connection is closed.
  pub after_calls-Reaches :
      (cs : List Call) → Reaches secrets client (after_calls p secrets client cs []) idle
  after_calls-Reaches cs = calls_from cs [] start
