-- ===== src/Api.antt =====
-- internal/api/api.go: the payloads and the envelope of the local API, and the status of a read. A
-- payload is kept as a value; its JSON text is not modelled.
pub mod Reports
use ksuite_mail.Common.{ℕ, Bool, not, ◌&&◌, Option, none, some, List, [], Text, if◌then◌else◌}
use ksuite_mail.Common.Ints.{ℤ}

pub data Status : Type 0 where
  status_ok status_ok_stale status_partial status_error : Status

-- cache.RefreshMeta
pub record RefreshMeta : Type 0 where
  pub attempted : Bool
  pub remote_ok : Bool
  pub last_successful_refresh_at : Option ℕ

pub record Warning : Type 0 where
  pub code : Text
  pub message : Text

pub record ApiError : Type 0 where
  pub code : Text
  pub message : Text

pub record Envelope (R : Type 0) : Type 0 where
  pub status : Status
  pub result : Option R
  pub warnings : List Warning
  pub error : Option ApiError

pub record MessageSummary : Type 0 where
  pub id : Text
  pub account : Text
  pub folder : Text
  pub subject : Text
  pub from : Text
  pub to : Text
  pub cc : Text
  pub flags : Text
  pub thread_key : Text
  pub date : ℕ
  pub snippet : Text
  pub visible_reason : Text

pub record MessageDetail : Type 0 where
  pub summary : MessageSummary
  pub body_text : Text
  pub has_attachments : Bool

-- ReadStatus
unfoldable pub read_status : RefreshMeta → Bool → Bool → Status
read_status meta partial local_found =
    if partial
    then (if local_found then status_ok_stale else status_error)
    else if meta.attempted && not meta.remote_ok
    then (if local_found then status_ok_stale else status_error)
    else status_ok

-- OKWithStatus; every caller's status is one of the four, so none is replaced by ok here.
abbrev pub ok_with_status : {R : Type 0} → Status → R → List Warning → Envelope R
ok_with_status status result warnings = record {
  status = status;
  result = some result;
  warnings = warnings;
  error = none;
}

-- Err
abbrev pub err_envelope : {R : Type 0} → Text → Text → Envelope R
err_envelope code message = record {
  status = status_error;
  result = none;
  warnings = [];
  error = some (record { code = code; message = message });
}

pub record ListRequest : Type 0 where
  pub account : Text
  pub folder : Text
  pub limit : ℤ
  pub offset : ℤ

pub record SearchRequest : Type 0 where
  pub account : Text
  pub folder : Text
  pub query_text : Text
  pub limit : ℤ
  pub offset : ℤ

pub record ShowRequest : Type 0 where
  pub id : Text
  pub preview : Bool
  pub max_chars : ℤ

pub record ThreadRequest : Type 0 where
  pub id : Text
  pub brief : Bool
  pub max_messages : ℤ

pub record ContextRequest : Type 0 where
  pub id : Text
  pub budget : ℤ

-- ListResponse, and SearchResponse, which has the same fields.
pub record ListResponse : Type 0 where
  pub results : List MessageSummary
  pub meta : RefreshMeta

pub record ShowResponse : Type 0 where
  pub result : MessageDetail
  pub meta : RefreshMeta

pub record ThreadResponse : Type 0 where
  pub thread_key : Text
  pub messages : List MessageSummary
  pub meta : RefreshMeta

pub record ContextResponse : Type 0 where
  pub seed : MessageDetail
  pub timeline : List MessageSummary
  pub meta : RefreshMeta
  pub message_budget : ℕ
