-- ===== src/Daemon/Access.antt =====
-- internal/daemon/daemon.go: which cached messages the current configuration lets a request see, and
-- the limits of a request.
use ksuite_mail.Common.{
  ℕ, ◌-◌, ◌*◌, Bool, true, false, not, ◌||◌, Option, none, some, List, [], ◌∷◌, ltb, if◌then◌else◌,
  any, Text, same,
}
use ksuite_mail.Common.Ints.{ℤ, pos, pos_part, positive}
use ksuite_mail.Strings.{Platform}
use ksuite_mail.Mail.{Account, Config, CachedMessage, MessageEnvelope, policy_domain}
use ksuite_mail.Policy.{domain_match}
use ksuite_mail.Api.{MessageSummary, MessageDetail}

abbrev pub default_limit : ℕ
default_limit = 100

abbrev pub default_budget : ℕ
default_budget = 1200

abbrev pub default_context_max : ℕ
default_context_max = 1200

abbrev pub max_read_window : ℕ
max_read_window = 1000

abbrev pub max_context_budget : ℕ
max_context_budget = 12 * 1024

unfoldable pub find_account : List Account → Text → Option Account
find_account [] id = none
find_account (a ∷ rest) id = if same a.id id then some a else find_account rest id

-- accountByID
abbrev pub account_by_id : Config → Text → Option Account
account_by_id cfg id = find_account cfg.accounts id

abbrev pub account_allows_folder : Account → Text → Bool
account_allows_folder acct folder = any (λ allowed. same allowed folder) acct.folders

-- The envelope that a cached message is checked as; what Go leaves out is the zero value.
abbrev pub cached_envelope : CachedMessage → MessageEnvelope
cached_envelope msg = record {
  uid = msg.uid;
  message_id = msg.message_id;
  thread_key = msg.thread_key;
  subject = msg.subject;
  from = msg.from;
  to = msg.to;
  cc = msg.cc;
  bcc = msg.bcc;
  date = msg.date;
  flags = msg.flags;
  snippet = msg.snippet;
  body_preview = [];
  has_attachments = false;
  content_hash = [];
}

unfoldable pub cached_message_allowed_for_account : Platform → Account → CachedMessage → Bool
cached_message_allowed_for_account p acct msg =
    if not (account_allows_folder acct msg.folder)
    then false
    else if not (same acct.policy policy_domain)
    then true
    else (domain_match p acct (cached_envelope msg)).0

abbrev pub allowed_for : Platform → CachedMessage → Option Account → Bool
allowed_for p msg none = false
allowed_for p msg (some acct) = cached_message_allowed_for_account p acct msg

unfoldable pub cached_message_allowed : Platform → Config → CachedMessage → Bool
cached_message_allowed p cfg msg = allowed_for p msg (account_by_id cfg msg.account_id)

abbrev pub to_message_summary : CachedMessage → MessageSummary
to_message_summary m = record {
  id = m.id;
  account = m.account_id;
  folder = m.folder;
  subject = m.subject;
  from = m.from;
  to = m.to;
  cc = m.cc;
  flags = m.flags;
  thread_key = m.thread_key;
  date = m.date;
  snippet = m.snippet;
  visible_reason = m.visible_reason;
}

abbrev pub to_message_detail : CachedMessage → Text → Bool → MessageDetail
to_message_detail m body include_body = record {
  summary = to_message_summary m;
  body_text = if include_body then body else [];
  has_attachments = m.has_attachments;
}

-- withDefault, at a fallback that is positive
unfoldable pub with_default : ℤ → ℤ → ℕ → ℕ
with_default cfg_limit explicit fallback =
    if positive explicit
    then pos_part explicit
    else if positive cfg_limit
    then pos_part cfg_limit
    else fallback

unfoldable pub effective_read_limit : ℤ → ℤ → ℕ
unfolding with_default
effective_read_limit config_default requested =
    if positive requested
    then pos_part requested
    else let limit = with_default config_default (pos 0) default_limit in
      if ltb max_read_window limit then max_read_window else limit

-- normalizeReadPage: the limit and the offset, `none` where the page passes the window. Both are at
-- least 0, and offset > maxReadWindow - limit is tested where limit is at most maxReadWindow.
unfoldable pub normalize_read_page : ℤ → ℤ → ℤ → Option (ℕ × ℕ)
unfolding effective_read_limit
normalize_read_page config_default requested_limit requested_offset =
    let limit = effective_read_limit config_default requested_limit in
    let offset = pos_part requested_offset in
    if ltb max_read_window limit || ltb (max_read_window - limit) offset
    then none
    else some (limit, offset)

unfoldable pub normalize_thread_limit : ℤ → Option ℕ
unfolding with_default
normalize_thread_limit requested =
    let limit = with_default (pos 0) requested default_limit in
    if ltb max_read_window limit then none else some limit

unfoldable pub normalize_context_budget : ℤ → Option ℕ
unfolding with_default
normalize_context_budget requested =
    let budget = with_default (pos 0) requested default_budget in
    if ltb max_context_budget budget then none else some budget
