-- ===== src/Daemon/Replies.antt =====
-- internal/daemon/daemon.go: what the handlers of the read commands compute for their responses.
use ksuite_mail.Common.{
  ℕ, ◌+◌, Bool, false, not, ◌||◌, List, [], ◌∷◌, if◌then◌else◌, min, take, ltb, Text, codes, same,
}
use ksuite_mail.Common.Ints.{ℤ, pos, positive, pos_part}
use ksuite_mail.Strings.{trim_space, is_empty, byte_len}
use ksuite_mail.Mail.{CachedMessage}
use ksuite_mail.Api.{Envelope, MessageSummary, MessageDetail, ShowRequest, ListResponse}
use ksuite_mail.Actions.{pure}
use ksuite_mail.Cache.Session.{Db}
use ksuite_mail.Cache.Reads.{QueryFilter, thread_messages}
use ksuite_mail.Refresh.Content.{strip_embedded_replies, truncate_text_bytes}
use ksuite_mail.Refresh.Cycle.{default_preview_bytes}
use ksuite_mail.Daemon.Access.{default_context_max, to_message_summary}
use ksuite_mail.Daemon.Scope.{ReadEnvelope, account_filter}
use ksuite_mail.Daemon.Server.{Failure, bad_request, read_ok}

abbrev pub list_reply : List MessageSummary → ReadEnvelope → Envelope ListResponse
list_reply results env =
    read_ok env.status (record { results = results; meta = env.meta }) env.warnings

abbrev pub filter_of : Text → Text → Text → ℕ → ℕ → QueryFilter
filter_of account folder query_text limit offset = record {
  account_id = account_filter account;
  folder = folder;
  query_text = query_text;
  limit = pos limit;
  offset = pos offset;
}

abbrev pub window_failure : Failure
window_failure = bad_request (codes "limit plus offset exceeds maximum read window")

-- truncateText
unfoldable pub truncate_text : Text → ℤ → Text
truncate_text s max_chars = if positive max_chars then take (pos_part max_chars) s else s

-- The body that handleShow returns.
unfoldable pub shown_body : ShowRequest → CachedMessage → Text
unfolding truncate_text strip_embedded_replies
shown_body req msg =
    if req.preview
    then truncate_text (strip_embedded_replies msg.body_text)
        (if positive req.max_chars then req.max_chars else pos default_preview_bytes)
    else []

-- The zero value of a response.
abbrev pub no_detail : MessageDetail
no_detail = record {
  summary = record {
    id = [];
    account = [];
    folder = [];
    subject = [];
    from = [];
    to = [];
    cc = [];
    flags = [];
    thread_key = [];
    date = 0;
    snippet = [];
    visible_reason = [];
  };
  body_text = [];
  has_attachments = false;
}

-- threadMessagesLoader
unfoldable pub thread_messages_loader : CachedMessage → ℕ → ℕ → Db (List CachedMessage)
unfolding thread_messages trim_space
thread_messages_loader seed limit offset =
    if is_empty (trim_space seed.thread_key)
    then pure (if ltb 0 offset then [] else seed ∷ [])
    else thread_messages seed.account_id seed.thread_key (pos limit) (pos offset)

-- The second filter of handleContext: the timeline and the bytes of its snippets.
unfoldable pub timeline_from :
    (CachedMessage → Bool) → Text → ℕ → ℕ → List CachedMessage → List MessageSummary × ℕ
timeline_from allowed seed_id budget used [] = ([], used)
timeline_from allowed seed_id budget used (msg ∷ msgs) =
    let skip = timeline_from allowed seed_id budget used msgs in
    let used' = used + byte_len msg.snippet in
    let rest = timeline_from allowed seed_id budget used' msgs in
    if not (allowed msg) || same msg.id seed_id
    then skip
    else if ltb budget used'
    then ([], used)
    else (to_message_summary msg ∷ rest.0, rest.1)

-- The body of the seed, cut to what is left of the budget.
unfoldable pub seed_body : CachedMessage → ℕ → Text
unfolding strip_embedded_replies truncate_text_bytes
seed_body seed remaining =
    if is_empty seed.body_text
    then []
    else if ltb 0 remaining
    then truncate_text_bytes (strip_embedded_replies seed.body_text)
        (min default_context_max remaining)
    else []
