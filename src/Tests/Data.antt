-- ===== src/Tests/Data.antt =====
-- A small mailbox and its configuration.
use ksuite_mail.Common.{
  ℕ, ◌+◌, ◌-◌, true, false, ◌&&◌, none, some, [], ◌∷◌, Result, ok, err, leb, if◌then◌else◌, Text,
  codes, same,
}
use ksuite_mail.Common.Ints.{pos}
use ksuite_mail.Strings.{Platform}
use ksuite_mail.Mail.{Account, Config, MessageHeaders, MessageEnvelope, CachedMessage}
use ksuite_mail.Cache.Tables.{fts_row}
use ksuite_mail.Cache.Session.{Repository}
use ksuite_mail.Refresh.Source.{Source}
use ksuite_mail.Refresh.Cycle.{RefreshOptions}
use ksuite_mail.Daemon.Server.{Server}
use ksuite_mail.Secrets.{SecretsFile}

abbrev pub platform : Platform
platform = record {
  lower = λ r. if leb b'A' r && leb r b'Z' then r + 32 else r;
  upper = λ r. if leb b'a' r && leb r b'z' then r - 32 else r;
  fold = λ r. if leb b'a' r && leb r b'z' then r - 32 else r;
  parse_address_list = λ t. none;
  digest = λ t. t;
}

abbrev pub account : Account
account = record {
  id = codes "work";
  email = codes "me@a.ch";
  host = codes "mail";
  port = pos 993;
  tls = some true;
  username = codes "me";
  password_ref = record { source = codes "file"; provider = codes "local"; id = codes "k" };
  policy = codes "domain";
  domains = codes "a.ch" ∷ [];
  folders = codes "INBOX" ∷ [];
}

abbrev pub config : Config
config = record { default_limit = pos 10; cache_ttl = codes "90d"; accounts = account ∷ [] }

-- A file that its owner alone can read, with the secret of the account.
abbrev pub secrets : SecretsFile
secrets = record {
  mode = ok 384;
  contents = ok (codes "{}");
  decode = λ t. some (record { version = pos 1; secrets = (codes "k", codes "pw") ∷ [] });
}

abbrev pub sender : Text
sender = codes "x@a.ch"

abbrev pub envelope : MessageEnvelope
envelope = record {
  uid = 1;
  message_id = codes "m1";
  thread_key = codes "t";
  subject = codes "hi";
  from = sender;
  to = [];
  cc = [];
  bcc = [];
  date = 7;
  flags = [];
  snippet = codes "hello";
  body_preview = [];
  has_attachments = false;
  content_hash = [];
}

abbrev headers_of : ℕ → Text → MessageHeaders
headers_of uid from = record { uid = uid; from = from; to = []; cc = []; bcc = [] }

abbrev pub mailbox : Source
mailbox = record {
  capabilities = λ a. ok (codes "IMAP4REV1" ∷ []);
  folders = λ a. ok (codes "INBOX" ∷ []);
  select_folder = λ a f. ok (record {
    uidvalidity = 1;
    uidnext = 3;
    highest_mod_seq = pos 5;
    read_only = true;
    selection_mode = [];
  });
  search_allowed =
      λ a f header domain scope. if same header (codes "From") then ok (1 ∷ 2 ∷ []) else ok [];
  list_uids = λ a f scope. ok (1 ∷ 2 ∷ []);
  fetch_headers = λ a f uids. ok (headers_of 1 sender ∷ headers_of 2 (codes "y@b.ch") ∷ []);
  fetch_envelopes = λ a f uids. ok (envelope ∷ []);
  fetch_seen_state = λ a f uid. ok (true, false);
  fetch_body_preview = λ a f uid n. ok (codes "hello");
  fetch_body_preview_and_seen_state = λ a f uid n.
      ok (codes "h", record { observed = true; seen_before = false; seen_after = false });
}

abbrev pub repository : Repository
repository = record {
  tables = record { messages = []; messages_fts = []; folder_state = [] };
  now = 10;
  faults = [];
}

abbrev pub options : RefreshOptions
options = record { now = 10; preview_bytes = 0; max_candidates = 100 }

abbrev pub message : CachedMessage
message = record {
  id = codes "m";
  account_id = codes "work";
  folder = codes "INBOX";
  uidvalidity = 1;
  uid = 1;
  message_id = codes "m1";
  thread_key = codes "t";
  subject = codes "hi";
  from = sender;
  to = [];
  cc = [];
  bcc = [];
  date = 7;
  flags = [];
  has_attachments = false;
  snippet = codes "hello";
  body_text = codes "hello all";
  visible_reason = codes "from";
  content_hash = [];
  first_loaded_at = 0;
  last_loaded_or_checked = 0;
}

-- One that the configuration does not allow.
abbrev pub other : CachedMessage
other = record message { id = codes "o"; uid = 2; from = codes "y@b.ch" }

-- A server whose remote source is not there, over a cache with both messages.
abbrev pub server : Server
server = record {
  config = ok config;
  opening = ok tt;
  source = ok none;
  matches = λ q row. true;
  ttl_text = λ e. [];
  cache_text = λ e. [];
  refresh_text = λ e. [];
}

abbrev pub filled : Repository
filled = record {
  tables = record {
    messages = other ∷ message ∷ [];
    messages_fts = fts_row other ∷ fts_row message ∷ [];
    folder_state = [];
  };
  now = 10;
  faults = [];
}

-- The value of a result.
abbrev pub value : {E A : Type 0} → A → Result E A → A
value a (ok b) = b
value a (err e) = a
