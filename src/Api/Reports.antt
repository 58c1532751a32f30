-- ===== src/Api/Reports.antt =====
-- internal/api/api.go: the payloads of the diagnostics. A status is one of the constants that the
-- package has for it; a fact that is omitted is `none`, or the empty text or list.
use ksuite_mail.Common.{ℕ, Bool, Option, none, List, [], Text}
use ksuite_mail.Common.Ints.{ℤ}

pub data CheckStatus : Type 0 where
  pass fail warn skip : CheckStatus

pub record Check : Type 0 where
  pub name : Text
  pub status : CheckStatus
  pub detail : Text
  pub code : Text

pub record DoctorReport : Type 0 where
  pub is_ok : Bool
  pub checks : List Check

pub record HealthInfo : Type 0 where
  pub status : Text

pub data ProbeStatus : Type 0 where
  passed failed inconclusive not_applicable : ProbeStatus

pub record DomainHeaderSearch : Type 0 where
  pub domain : Text
  pub header : Text
  pub matched_uid_count : ℕ
  pub nonmatching_visible : Bool

pub record ProbeFacts : Type 0 where
  pub folder_count : Option ℕ
  pub folders : List Text
  pub folder : Text
  pub read_only : Option Bool
  pub selection_mode : Text
  pub read_state_preserved : Option Bool
  pub condstore_supported : Option Bool
  pub highest_mod_seq_available : Option Bool
  pub uid_range_supported : Option Bool
  pub refresh_strategy : Text
  pub uidvalidity : Option ℕ
  pub uidnext : Option ℕ
  pub highest_mod_seq : Option ℤ
  pub domain_header_search : List DomainHeaderSearch

-- &api.ProbeFacts{}
abbrev pub no_facts : ProbeFacts
no_facts = record {
  folder_count = none;
  folders = [];
  folder = [];
  read_only = none;
  selection_mode = [];
  read_state_preserved = none;
  condstore_supported = none;
  highest_mod_seq_available = none;
  uid_range_supported = none;
  refresh_strategy = [];
  uidvalidity = none;
  uidnext = none;
  highest_mod_seq = none;
  domain_header_search = [];
}

pub record ProbeCheck : Type 0 where
  pub id : Text
  pub status : ProbeStatus
  pub code : Text
  pub detail : Text
  pub facts : Option ProbeFacts

pub record ProbeImapResponse : Type 0 where
  pub account : Text
  pub status : ProbeStatus
  pub checks : List ProbeCheck

pub record ProbeImapRequest : Type 0 where
  pub account : Text
