-- ===== src/Probe/Checks.antt =====
-- internal/providerprobe/imap.go: the ids of the checks, and how a check is made.
use ksuite_mail.Common.{
  Bool, true, false, ◌&&◌, not, none, some, List, [], ◌∷◌, ◌++◌, if◌then◌else◌, Text, codes,
}
use ksuite_mail.Common.Ints.{ℤ, pos, negsuc}
use ksuite_mail.Strings.{Platform, trim_space, to_lower, contains, is_empty}
use ksuite_mail.Mail.{Account, decimal, policy_full}
use ksuite_mail.Common.{same, suc}
use ksuite_mail.Api.Reports.{
  ProbeStatus, passed, failed, inconclusive, not_applicable, ProbeCheck, ProbeFacts,
}
use ksuite_mail.Refresh.Source.{
  SourceError, canceled, deadline_exceeded, source_unavailable, permission_denied, other_error,
}

-- The constants of type checkID.
abbrev pub account_selection : Text
account_selection = codes "account_selection"

abbrev pub fixed_checklist : Text
fixed_checklist = codes "fixed_checklist"

abbrev pub capability : Text
capability = codes "capability"

abbrev pub folder_listing : Text
folder_listing = codes "folder_listing"

abbrev pub folder_selection : Text
folder_selection = codes "folder_selection"

abbrev pub uid_behavior : Text
uid_behavior = codes "uid_behavior"

abbrev pub refresh_strategy : Text
refresh_strategy = codes "refresh_strategy"

abbrev pub domain_header : Text
domain_header = codes "domain_header_search"

abbrev pub read_state : Text
read_state = codes "read_state"

-- strconv.Itoa and the verbs %d and %t of fmt
abbrev pub int_text : ℤ → Text
int_text (pos n) = decimal n
int_text (negsuc n) = b'-' ∷ decimal (suc n)

abbrev pub bool_text : Bool → Text
bool_text true = codes "true"
bool_text false = codes "false"

-- probeCheck
abbrev pub probe_check : Text → ProbeStatus → Text → Text → ProbeCheck
probe_check id status code detail = record {
  id = id;
  status = status;
  code = code;
  detail = detail;
  facts = none;
}

-- probeCheckFacts
abbrev pub probe_check_facts : Text → ProbeStatus → Text → Text → ProbeFacts → ProbeCheck
probe_check_facts id status code detail facts = record (probe_check id status code detail) {
  facts = some facts;
}

-- probeSourceErrorCode
unfoldable pub probe_source_error_code : SourceError → Text
probe_source_error_code source_unavailable = codes "source_unavailable"
probe_source_error_code deadline_exceeded = codes "remote_timeout"
probe_source_error_code permission_denied = codes "permission_denied"
probe_source_error_code canceled = codes "remote_failed"
probe_source_error_code other_error = codes "remote_failed"

-- probeFailure
abbrev pub probe_failure : Text → SourceError → ProbeCheck
probe_failure id e =
    probe_check id failed (probe_source_error_code e) (codes "provider probe failed")

-- probeNotRun
abbrev pub probe_not_run : Text → ProbeCheck
probe_not_run id =
    probe_check id inconclusive (codes "prerequisite_failed") (id ++ codes " was not run")

abbrev pub full_policy_check : ProbeCheck
full_policy_check =
    probe_check domain_header not_applicable (codes "full_policy")
      (codes "full-policy accounts do not depend on domain-header filtering")

-- domainProbeNotRun
unfoldable pub domain_probe_not_run : Account → ProbeCheck
domain_probe_not_run acct =
    if same acct.policy policy_full then full_policy_check else probe_not_run domain_header

-- firstProbeFolder
unfoldable pub first_folder : List Text → Text
unfolding trim_space
first_folder [] = []
first_folder (f ∷ fs) = if is_empty (trim_space f) then first_folder fs else f

-- sentProbeFolder
unfoldable pub sent_folder : Platform → List Text → Text
unfolding trim_space contains
sent_folder p [] = []
sent_folder p (f ∷ fs) =
    let clean = trim_space f in
    if not (is_empty clean) && contains (to_lower p clean) (codes "sent")
    then clean
    else sent_folder p fs

-- aggregateProbeStatus: `status` is that of the checks before.
unfoldable pub aggregate_from : ProbeStatus → List ProbeCheck → ProbeStatus
aggregate_from status [] = status
aggregate_from status (c ∷ cs) = elim c.status [
  | passed ↦ aggregate_from status cs
  | failed ↦ failed
  | inconclusive ↦ aggregate_from inconclusive cs
  | not_applicable ↦ aggregate_from status cs
]

unfoldable pub aggregate_probe_status : List ProbeCheck → ProbeStatus
unfolding aggregate_from
aggregate_probe_status checks = aggregate_from passed checks
