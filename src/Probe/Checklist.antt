-- ===== src/Probe/Checklist.antt =====
-- internal/providerprobe/imap.go: the checks of a response and its status.
use ksuite_mail.Common.{
  ◌≡◌, refl, ap, Bool, true, false, Option, none, some, List, [], ◌∷◌, ◌++◌, map, Result, ok, err,
  if◌then◌else◌, Text, drop, any, arith,
}
use ksuite_mail.Strings.{Platform, is_empty}
use ksuite_mail.Mail.{Account, RemoteFolderState}
use ksuite_mail.Api.Reports.{ProbeStatus, passed, failed, inconclusive, not_applicable, ProbeCheck}
use ksuite_mail.Refresh.Source.{Source, SourceError}
use ksuite_mail.Probe.Checks.{
  account_selection, fixed_checklist, capability, folder_listing, folder_selection, uid_behavior,
  refresh_strategy, domain_header, read_state, first_folder, aggregate_from, aggregate_probe_status,
}
use ksuite_mail.Probe.Strategy.{is_failed, without_uid_state}
use ksuite_mail.Probe.Headers.{HeaderResult}
use ksuite_mail.Probe.ReadState.{read_state_prerequisites_met}
use ksuite_mail.Probe.Run.{
  run_imap, probe_folder, probe_bare_folder, after_select, after_folders, after_capabilities,
  without_source, behind_listing, read_state_check, without_folder, checks_of, opening,
}
use ksuite_mail.Probe.Ids.{
  if_id, domain_probe_not_run_id, inconclusive_refresh_strategy_id, check_refresh_strategy_id,
  probe_uid_behavior_id, probe_read_state_id, probe_domain_headers_id,
}

abbrev pub is_inconclusive : ProbeStatus → Bool
is_inconclusive passed = false
is_inconclusive failed = false
is_inconclusive inconclusive = true
is_inconclusive not_applicable = false

abbrev pub worst : ProbeStatus → List ProbeCheck → ProbeStatus
worst status cs =
    if any (λ (c : ProbeCheck). is_failed c.status) cs
    then failed
    else if any (λ (c : ProbeCheck). is_inconclusive c.status) cs
    then inconclusive
    else status

aggregate_from-worst :
    (status : ProbeStatus) (cs : List ProbeCheck) → aggregate_from status cs ≡ worst status cs
unfolding aggregate_from
aggregate_from-worst status [] = refl
aggregate_from-worst status (c ∷ cs) =
    ground (arith, aggregate_from-worst status cs, aggregate_from-worst inconclusive cs)

-- The status of a response is failed if a check has failed, else inconclusive if one is inconclusive,
-- else passed; the order of the checks does not matter, and neither do those that do not apply.
pub aggregate_probe_status_lem :
    (cs : List ProbeCheck) → aggregate_probe_status cs ≡ worst passed cs
unfolding aggregate_probe_status
aggregate_probe_status_lem cs = aggregate_from-worst passed cs

abbrev pub checklist : List Text
checklist =
    account_selection ∷ fixed_checklist ∷ capability ∷ folder_listing ∷ folder_selection
    ∷ uid_behavior ∷ refresh_strategy ∷ domain_header ∷ read_state ∷ []

-- The ids of the checks in their order.
abbrev pub ids : List ProbeCheck → List Text
ids cs = map (λ (c : ProbeCheck). c.id) cs

module _ (p : Platform) (acct : Account) where
  without_source-ids : ids (without_source p acct) ≡ drop 2 checklist
  without_source-ids = rw (inconclusive_refresh_strategy_id, domain_probe_not_run_id acct)

  behind_listing-ids :
      (caps : Option (List Text)) → ids (behind_listing p acct caps) ≡ drop 4 checklist
  behind_listing-ids caps = rw (inconclusive_refresh_strategy_id, domain_probe_not_run_id acct)

  module _ (src : Source) where
    read_state_check_id :
        (folder : Text) (state : RemoteFolderState) (r : HeaderResult)
        → (read_state_check p acct src folder state r).id ≡ read_state
    read_state_check_id folder state r =
        if_id (read_state_prerequisites_met acct r) _ _
          (probe_read_state_id src acct folder state r.evidence) refl

    probe_folder-ids :
        (caps : List Text) (folder : Text) (state : RemoteFolderState)
        → ids (probe_folder p acct src caps folder state) ≡ drop 4 checklist
    unfolding probe_folder
    probe_folder-ids caps folder state = rw (
      probe_uid_behavior_id src acct folder,
      check_refresh_strategy_id p caps state,
      probe_domain_headers_id p src acct folder,
      read_state_check_id folder state,
    )

    probe_bare_folder-ids :
        (caps : List Text) (folder : Text) (state : RemoteFolderState)
        → ids (probe_bare_folder p acct src caps folder state) ≡ drop 4 checklist
    unfolding probe_bare_folder
    probe_bare_folder-ids caps folder state =
        rw (check_refresh_strategy_id p caps state, domain_probe_not_run_id acct)

    ids_if :
        (b : Bool) (cs ds : List ProbeCheck) (l : List Text)
        → ids cs ≡ l
        → ids ds ≡ l
        → ids (if b then cs else ds) ≡ l
    ids_if true cs ds l hc hd = hc
    ids_if false cs ds l hc hd = hd

    after_select-ids :
        (caps : List Text) (folder : Text) (r : Result SourceError RemoteFolderState)
        → ids (after_select p acct src caps folder r) ≡ drop 4 checklist
    after_select-ids caps folder (err e) =
        rw (inconclusive_refresh_strategy_id, domain_probe_not_run_id acct)
    after_select-ids caps folder (ok state) =
        ids_if (without_uid_state state) _ _ _ (probe_bare_folder-ids caps folder state)
          (probe_folder-ids caps folder state)

    without_folder-ids :
        (caps : List Text) → ids (without_folder p acct src caps) ≡ drop 4 checklist
    without_folder-ids caps = rw (inconclusive_refresh_strategy_id, domain_probe_not_run_id acct)

    after_folders-ids :
        (caps : List Text) (r : Result SourceError (List Text))
        → ids (after_folders p acct src caps r) ≡ drop 3 checklist
    after_folders-ids caps (err e) = ap (λ l. folder_listing ∷ l) (behind_listing-ids (some caps))
    after_folders-ids caps (ok []) = ap (λ l. folder_listing ∷ l) (behind_listing-ids (some caps))
    after_folders-ids caps (ok (f ∷ fs)) =
        let folder = first_folder acct.folders in
        ap (λ l. folder_listing ∷ l)
          (ids_if (is_empty folder) _ _ _ (without_folder-ids caps)
            (after_select-ids caps folder (src.select_folder acct folder)))

    after_capabilities-ids :
        (r : Result SourceError (List Text))
        → ids (after_capabilities p acct src r) ≡ drop 2 checklist
    after_capabilities-ids (err e) =
        ap (λ l. capability ∷ folder_listing ∷ l) (behind_listing-ids none)
    after_capabilities-ids (ok caps) =
        ap (λ l. capability ∷ l) (after_folders-ids caps (src.folders acct))

  checks_of-ids : (src : Option Source) → ids (checks_of p acct src) ≡ drop 2 checklist
  checks_of-ids none = without_source-ids
  checks_of-ids (some src) = after_capabilities-ids src (src.capabilities acct)

  -- Whatever the source answers, and without one, the response has the nine checks of the checklist, in
  -- its order and each once; its status is failed if one has failed, else inconclusive if one is
  -- inconclusive, else passed.
  pub run_imap-checklist :
      (src : Option Source)
      → let r = run_imap p acct src in
        (ids r.checks ≡ checklist) × (r.status ≡ worst passed r.checks)
  unfolding run_imap
  run_imap-checklist src = (
    ap (λ l. account_selection ∷ fixed_checklist ∷ l) (checks_of-ids src),
    aggregate_probe_status_lem (opening ++ checks_of p acct src),
  )
