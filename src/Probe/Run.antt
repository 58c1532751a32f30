-- ===== src/Probe/Run.antt =====
-- internal/providerprobe/imap.go: RunIMAP.
use ksuite_mail.Common.{
  Bool, true, false, not, Option, none, some, List, [], ◌∷◌, ◌++◌, Result, ok, err, if◌then◌else◌,
  ◌==◌, Text, codes, length,
}
use ksuite_mail.Common.Ints.{positive}
use ksuite_mail.Strings.{Platform, is_empty, join}
use ksuite_mail.Mail.{Account, RemoteFolderState, decimal}
use ksuite_mail.Api.Reports.{
  passed, failed, inconclusive, ProbeCheck, ProbeFacts, ProbeImapResponse, no_facts,
}
use ksuite_mail.Refresh.Source.{Source, SourceError}
use ksuite_mail.Probe.Checks.{
  account_selection, fixed_checklist, capability, folder_listing, folder_selection, uid_behavior,
  read_state, int_text, bool_text, probe_check, probe_check_facts, probe_failure, probe_not_run,
  domain_probe_not_run, first_folder, aggregate_probe_status,
}
use ksuite_mail.Probe.Strategy.{
  without_uid_state, inconclusive_refresh_strategy, check_refresh_strategy, probe_uid_behavior,
}
use ksuite_mail.Probe.Headers.{HeaderResult, probe_domain_headers}
use ksuite_mail.Probe.ReadState.{read_state_prerequisites_met, probe_read_state}

-- folderStateFacts
unfoldable pub folder_state_facts : Text → RemoteFolderState → Bool → ProbeFacts
folder_state_facts folder state include_uid_state =
    let facts = record no_facts {
      folder = folder;
      read_only = some state.read_only;
      selection_mode = state.selection_mode;
    } in
    if include_uid_state
    then record facts {
      uidvalidity = some state.uidvalidity;
      uidnext = some state.uidnext;
      highest_mod_seq = if positive state.highest_mod_seq then some state.highest_mod_seq else none;
    }
    else facts

abbrev pub opening : List ProbeCheck
opening =
    probe_check account_selection passed (codes "configured_account")
      (codes "selected an existing daemon-side account")
    ∷ probe_check fixed_checklist passed (codes "escape_hatch_unavailable")
        (codes "probe uses the fixed daemon-side checklist contract")
    ∷ []

abbrev unavailable : Text → ProbeCheck
unavailable id =
    probe_check id failed (codes "source_unavailable") (codes "mail source is unavailable")

abbrev no_folder : Text → ProbeCheck
no_folder id =
    probe_check id inconclusive (codes "no_configured_folder")
      (codes "selected account has no configured folders")

module _ (p : Platform) (acct : Account) where
  abbrev pub not_chosen : Option (List Text) → Text → ProbeCheck
  not_chosen caps detail = inconclusive_refresh_strategy p caps (codes "prerequisite_failed") detail

  -- `src == nil`
  abbrev pub without_source : List ProbeCheck
  without_source =
      unavailable capability
      ∷ unavailable folder_listing
      ∷ unavailable folder_selection
      ∷ unavailable uid_behavior
      ∷ not_chosen none (codes "refresh strategy requires a live source")
      ∷ domain_probe_not_run acct
      ∷ probe_check read_state inconclusive (codes "fixture_required")
          (codes "BODY.PEEK read-state fixture is required")
      ∷ []

  -- The checks behind the one of the folder's selection, where that has failed or has no UID state.
  abbrev pub behind_selection : ProbeCheck → ProbeCheck → List ProbeCheck
  behind_selection behavior strategy =
      behavior ∷ strategy ∷ domain_probe_not_run acct ∷ probe_not_run read_state ∷ []

  -- The same, where the folders could not be listed, or there are none.
  abbrev pub behind_listing : Option (List Text) → List ProbeCheck
  behind_listing caps =
      probe_not_run folder_selection
      ∷ behind_selection (probe_not_run uid_behavior)
          (not_chosen caps (codes "refresh strategy requires prerequisite checks"))

  module _ (src : Source) where
    abbrev pub read_state_check : Text → RemoteFolderState → HeaderResult → ProbeCheck
    read_state_check folder state headers =
        if read_state_prerequisites_met acct headers
        then probe_read_state src acct folder state headers.evidence
        else probe_check read_state inconclusive (codes "prerequisite_failed")
            (codes "read-state probe requires validated domain-header search")

    -- The selected folder has a UIDVALIDITY and a UIDNEXT.
    unfoldable pub probe_folder : List Text → Text → RemoteFolderState → List ProbeCheck
    probe_folder caps folder state =
        let behavior = probe_uid_behavior src acct folder in
        let headers = probe_domain_headers p src acct folder in
        probe_check_facts folder_selection passed (codes "examine_ok")
          (codes "configured_folder=true uidvalidity="
            ++ decimal state.uidvalidity
            ++ codes " uidnext="
            ++ decimal state.uidnext
            ++ codes " highestmodseq="
            ++ int_text state.highest_mod_seq)
          (folder_state_facts folder state true)
        ∷ behavior
        ∷ check_refresh_strategy p caps state behavior
        ∷ headers.check
        ∷ read_state_check folder state headers
        ∷ []

    unfoldable pub probe_bare_folder : List Text → Text → RemoteFolderState → List ProbeCheck
    probe_bare_folder caps folder state =
        let behavior = probe_not_run uid_behavior in
        probe_check_facts folder_selection inconclusive (codes "uid_state_required")
          (codes "configured_folder=true uidvalidity_present="
            ++ bool_text (not (state.uidvalidity == 0))
            ++ codes " uidnext_present="
            ++ bool_text (not (state.uidnext == 0)))
          (folder_state_facts folder state false)
        ∷ behind_selection behavior (check_refresh_strategy p caps state behavior)

    abbrev pub after_select :
        List Text → Text → Result SourceError RemoteFolderState → List ProbeCheck
    after_select caps folder (err e) =
        probe_failure folder_selection e
        ∷ behind_selection (probe_not_run uid_behavior)
            (not_chosen (some caps) (codes "refresh strategy requires folder selection"))
    after_select caps folder (ok state) =
        if without_uid_state state
        then probe_bare_folder caps folder state
        else probe_folder caps folder state

    abbrev pub without_folder : List Text → List ProbeCheck
    without_folder caps =
        no_folder folder_selection
        ∷ no_folder uid_behavior
        ∷ inconclusive_refresh_strategy p (some caps) (codes "no_configured_folder")
            (codes "refresh strategy requires a configured folder")
        ∷ domain_probe_not_run acct
        ∷ no_folder read_state
        ∷ []

    abbrev pub after_folders : List Text → Result SourceError (List Text) → List ProbeCheck
    after_folders caps (err e) = probe_failure folder_listing e ∷ behind_listing (some caps)
    after_folders caps (ok []) =
        probe_check folder_listing inconclusive (codes "fixture_required") (codes "folder_count=0")
        ∷ behind_listing (some caps)
    after_folders caps (ok (f ∷ fs)) =
        let folder = first_folder acct.folders in
        probe_check_facts folder_listing passed (codes "list_ok")
          (codes "folder_count=" ++ decimal (length (f ∷ fs)))
          (record no_facts { folder_count = some (length (f ∷ fs)); folders = f ∷ fs })
        ∷ (if is_empty folder
            then without_folder caps
            else after_select caps folder (src.select_folder acct folder))

    abbrev pub after_capabilities : Result SourceError (List Text) → List ProbeCheck
    after_capabilities (err e) =
        probe_failure capability e ∷ probe_not_run folder_listing ∷ behind_listing none
    after_capabilities (ok caps) =
        probe_check capability passed (codes "capability_ok")
          (codes "capabilities=" ++ join (codes ",") caps)
        ∷ after_folders caps (src.folders acct)

  abbrev pub checks_of : Option Source → List ProbeCheck
  checks_of none = without_source
  checks_of (some src) = after_capabilities src (src.capabilities acct)

  -- RunIMAP, with `response`
  unfoldable pub run_imap : Option Source → ProbeImapResponse
  run_imap src =
      let checks = opening ++ checks_of src in
      record { account = acct.id; status = aggregate_probe_status checks; checks = checks }
