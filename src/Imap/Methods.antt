-- ===== src/Imap/Methods.antt =====
-- internal/imapadapter/adapter.go: the methods of the source, each in a session of its own.
use ksuite_mail.Common.{
  ℕ, Bool, true, false, Option, none, some, List, [], ◌∷◌, Result, ok, err, if◌then◌else◌, Text,
  codes, ltb,
}
use ksuite_mail.Strings.{Platform}
use ksuite_mail.Mail.{Account, UidRange, RemoteFolderState}
use ksuite_mail.Actions.{pure, ◌>>=◌, ◌>>◌, with_error}
use ksuite_mail.Secrets.{SecretsFile}
use ksuite_mail.Refresh.Source.{Source, SourceError, source_unavailable, ReadStateProbeResult}
use ksuite_mail.Imap.Names.{sanitize_capability, sanitize_folder, clean_names, sort_texts}
use ksuite_mail.Imap.Ranges.{uid_range_set, to_mail_uids}
use ksuite_mail.Imap.Search.{has_seen_flag}
use ksuite_mail.Imap.Wire.{CommandError, Wire, normalize_command_error, raw_search}
use ksuite_mail.Imap.Sessions.{
  Event, dial, capability, list_folders, select, uid_search, fetch_flags, fetch_body, Client,
  SelectData, Session, password, without_tls, perform, with_session,
}

abbrev condstore_of : (List Text → Bool) → Result SourceError (List Text) → Bool
condstore_of has (err e) = false
condstore_of has (ok caps) = has caps

abbrev examined : SelectData → RemoteFolderState
examined d = record {
  uidvalidity = d.uidvalidity;
  uidnext = d.uidnext;
  highest_mod_seq = d.highest_mod_seq;
  read_only = true;
  selection_mode = codes "examine";
}

-- `len(buf) == 0`, and the flags of buf[0].
abbrev seen_state_of : List (List Text) → Bool × Bool
seen_state_of [] = (false, false)
seen_state_of (flags ∷ rest) = (true, has_seen_flag flags)

abbrev first_body : List Text → Text
first_body [] = []
first_body (body ∷ rest) = body

abbrev unobserved : Text × ReadStateProbeResult
unobserved = ([], record { observed = false; seen_before = false; seen_after = false })

abbrev pub partial_size : ℕ → Option ℕ
partial_size max_bytes = if ltb 0 max_bytes then some max_bytes else none

module _ (p : Platform) (secrets : SecretsFile) (client : Client) where
  abbrev ask : {A : Type 0} → Event → (List Event → Result CommandError A) → Session A
  ask = perform p secrets client

  -- Capabilities
  unfoldable pub capabilities : Account → Session (List Text)
  capabilities acct = with_session p secrets client acct (do
    caps ← ask capability client.capabilities
    pure (sort_texts (clean_names (sanitize_capability p) caps)))

  -- Folders
  unfoldable pub folders : Account → Session (List Text)
  folders acct = with_session p secrets client acct (do
    listed ← ask list_folders client.listed
    pure (sort_texts (clean_names sanitize_folder listed)))

  -- `caps, _ := c.client.Capability().Wait()`
  unfoldable pub condstore : Session Bool
  condstore h =
      let (r, h') = ask capability client.capabilities h in
      (ok (condstore_of client.has_condstore r), h')

  -- SelectFolder
  unfoldable pub select_folder : Account → Text → Session RemoteFolderState
  select_folder acct folder = with_session p secrets client acct (do
    condstore_on ← condstore
    d ← ask (select folder true condstore_on) client.selected
    pure (examined d))

  -- The read-only SELECT that precedes the other commands.
  unfoldable pub examine : Text → Session SelectData
  examine folder = ask (select folder true false) client.selected

  -- ListUIDs
  unfoldable pub list_uids : Account → Text → UidRange → Session (List ℕ)
  list_uids acct folder scope = with_session p secrets client acct (do
    examine folder
    uids ← ask (uid_search (uid_range_set scope)) client.searched
    pure (to_mail_uids uids))

  -- fetchSeenState
  unfoldable pub seen_state : ℕ → Session (Bool × Bool)
  seen_state uid = do buf ← ask (fetch_flags uid) client.flags; pure (seen_state_of buf)

  -- fetchBodyPreview
  unfoldable pub body_preview : ℕ → ℕ → Session Text
  body_preview uid max_bytes = do
    buf ← ask (fetch_body uid true (partial_size max_bytes)) client.bodies
    pure (first_body buf)

  -- FetchBodyPreview
  unfoldable pub fetch_body_preview : Account → Text → ℕ → ℕ → Session Text
  fetch_body_preview acct folder uid max_bytes =
      with_session p secrets client acct (do examine folder; body_preview uid max_bytes)

  -- FetchSeenState
  unfoldable pub fetch_seen_state : Account → Text → ℕ → Session (Bool × Bool)
  fetch_seen_state acct folder uid =
      with_session p secrets client acct (do examine folder; seen_state uid)

  unfoldable pub state_after : ℕ → Text → Bool → Session (Text × ReadStateProbeResult)
  state_after uid preview before = do
    state ← seen_state uid
    if state.0
        then pure (preview, record { observed = true; seen_before = before; seen_after = state.1 })
        else pure unobserved

  unfoldable pub preview_between : ℕ → ℕ → Bool × Bool → Session (Text × ReadStateProbeResult)
  preview_between uid max_bytes before =
      if before.0
      then (do preview ← body_preview uid max_bytes; state_after uid preview before.1)
      else pure unobserved

  -- FetchBodyPreviewAndSeenState
  unfoldable pub fetch_body_preview_and_seen_state :
      Account → Text → ℕ → ℕ → Session (Text × ReadStateProbeResult)
  fetch_body_preview_and_seen_state acct folder uid max_bytes =
      with_session p secrets client acct
        (do examine folder; before ← seen_state uid; preview_between uid max_bytes before)

  -- `peer` is the server's side of the raw connection that a search opens.
  module _ (range_text : ℕ × ℕ → Text) (peer : Account → Text → Text → Text → UidRange → Wire) where
    abbrev raw_session :
        Account
        → Text
        → Text
        → Text
        → UidRange
        → Result SourceError Text
        → Result CommandError (Unit {0})
        → Result SourceError (List ℕ)
    raw_session acct folder header value scope (err e) dialled = err e
    raw_session acct folder header value scope (ok pass) (err e) = err (normalize_command_error p e)
    raw_session acct folder header value scope (ok pass) (ok _) =
        (with_error (normalize_command_error p)
          (raw_search p range_text acct pass folder header value scope)
          (peer acct folder header value scope)).0

    -- SearchAllowed
    unfoldable pub search_allowed :
        Account → Text → Text → Text → UidRange → Result SourceError (List ℕ)
    search_allowed acct folder header value scope =
        if without_tls acct
        then err source_unavailable
        else raw_session acct folder header value scope (password secrets acct)
            (client.dialled (dial acct.host acct.port ∷ []))

    -- imapadapter.Source as a mail.Source: each call begins with nothing done.
    unfoldable pub live_source : Source
    live_source = record {
      capabilities = λ acct. (capabilities acct []).0;
      folders = λ acct. (folders acct []).0;
      select_folder = λ acct folder. (select_folder acct folder []).0;
      search_allowed = search_allowed;
      list_uids = λ acct folder scope. (list_uids acct folder scope []).0;
      fetch_headers = λ acct folder uids. err source_unavailable;
      fetch_envelopes = λ acct folder uids. err source_unavailable;
      fetch_seen_state = λ acct folder uid. (fetch_seen_state acct folder uid []).0;
      fetch_body_preview = λ acct folder uid n. (fetch_body_preview acct folder uid n []).0;
      fetch_body_preview_and_seen_state =
          λ acct folder uid n. (fetch_body_preview_and_seen_state acct folder uid n []).0;
    }
