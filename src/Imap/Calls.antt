-- ===== src/Imap/Calls.antt =====
-- internal/imapadapter/adapter.go: any sequence of calls of the methods that use the client.
use ksuite_mail.Common.{ℕ, List, [], ◌∷◌, Text}
use ksuite_mail.Strings.{Platform}
use ksuite_mail.Mail.{Account, UidRange}
use ksuite_mail.Secrets.{SecretsFile}
use ksuite_mail.Imap.Sessions.{Event, Client}
use ksuite_mail.Imap.Methods

pub data Call : Type 0 where
  capabilities folders : Account → Call
  select_folder : Account → Text → Call
  list_uids : Account → Text → UidRange → Call
  fetch_seen_state : Account → Text → ℕ → Call
  fetch_body_preview fetch_body_preview_and_seen_state : Account → Text → ℕ → ℕ → Call

module _ (p : Platform) (secrets : SecretsFile) (client : Client) where
  -- What has been done after a call, whatever it returned.
  unfoldable pub after_call : Call → List Event → List Event
  after_call (capabilities a) h = (Methods.capabilities p secrets client a h).1
  after_call (folders a) h = (Methods.folders p secrets client a h).1
  after_call (select_folder a f) h = (Methods.select_folder p secrets client a f h).1
  after_call (list_uids a f scope) h = (Methods.list_uids p secrets client a f scope h).1
  after_call (fetch_seen_state a f uid) h = (Methods.fetch_seen_state p secrets client a f uid h).1
  after_call (fetch_body_preview a f uid n) h =
      (Methods.fetch_body_preview p secrets client a f uid n h).1
  after_call (fetch_body_preview_and_seen_state a f uid n) h =
      (Methods.fetch_body_preview_and_seen_state p secrets client a f uid n h).1

  unfoldable pub after_calls : List Call → List Event → List Event
  unfolding after_call
  after_calls [] h = h
  after_calls (c ∷ cs) h = after_calls cs (after_call c h)
