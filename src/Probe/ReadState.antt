-- ===== src/Probe/ReadState.antt =====
-- internal/providerprobe/imap.go: probeReadState, whether fetching a body marks a message as seen.
use ksuite_mail.Common.{
  ℕ, ◌+◌, ◌-◌, Bool, true, false, ◌&&◌, ◌||◌, not, some, List, [], ◌∷◌, ◌++◌, Result, ok, err,
  if◌then◌else◌, ltb, leb, ◌==◌, Text, codes, same, length, drop, retain,
}
use ksuite_mail.Strings.{trim_space}
use ksuite_mail.Mail.{Account, UidRange, RemoteFolderState, policy_domain}
use ksuite_mail.Api.Reports.{passed, failed, inconclusive, ProbeCheck, no_facts}
use ksuite_mail.Refresh.Source.{Source, SourceError, ReadStateProbeResult}
use ksuite_mail.Refresh.Uids.{dedupe_uids}
use ksuite_mail.Probe.Checks.{probe_check, probe_check_facts, probe_failure, read_state}
use ksuite_mail.Probe.Headers.{Evidence, HeaderResult}
use ksuite_mail.Probe.Strategy.{is_failed}

abbrev pub scan_limit : ℕ
scan_limit = 10

-- readStateFixtureScope
unfoldable pub read_state_fixture_scope : RemoteFolderState → UidRange
read_state_fixture_scope state =
    if state.uidnext == 0
    then record { min = 0; max = 0 }
    else let last = state.uidnext - 1 in
      record { min = if leb scan_limit last then last - scan_limit + 1 else 1; max = last }

-- uidInRange
abbrev pub uid_in_range : UidRange → ℕ → Bool
uid_in_range scope uid =
    not (not (scope.min == 0) && ltb uid scope.min)
    && not (not (scope.max == 0) && ltb scope.max uid)

-- The UIDs of the evidence for a folder in the range.
unfoldable pub evidence_uids : Text → UidRange → List Evidence → List ℕ
unfolding trim_space
evidence_uids folder scope [] = []
evidence_uids folder scope (e ∷ es) =
    (if same (trim_space e.folder) (trim_space folder)
      then retain (uid_in_range scope) e.uids
      else [])
    ++ evidence_uids folder scope es

module _ (src : Source) (acct : Account) (folder : Text) where
  -- readStateFixtureUIDs: the keys of a map, sorted.
  unfoldable pub read_state_fixture_uids :
      RemoteFolderState → List Evidence → Result SourceError (List ℕ)
  unfolding evidence_uids read_state_fixture_scope dedupe_uids
  read_state_fixture_uids state evidence =
      let scope = read_state_fixture_scope state in
      if not (same acct.policy policy_domain)
      then src.list_uids acct folder scope
      else ok (dedupe_uids (evidence_uids folder scope evidence))

  abbrev pub fixture_required : ProbeCheck
  fixture_required =
      probe_check read_state inconclusive (codes "fixture_required")
        (codes "BODY.PEEK read-state fixture is required")

  -- Of a message that was not seen before the body was fetched: whether it is after.
  abbrev pub preserved_check : ReadStateProbeResult → ProbeCheck
  preserved_check seen =
      if seen.seen_after
      then probe_check_facts read_state failed (codes "body_marked_seen")
          (codes "seen_state_changed=true") (record no_facts { read_state_preserved = some false })
      else probe_check_facts read_state passed (codes "body_peek_ok")
          (codes "body_peek_exercised=true") (record no_facts { read_state_preserved = some true })

  -- A round that has fetched the body, and `next`, the rounds after it.
  abbrev pub after_fetch :
      Result SourceError (Text × ReadStateProbeResult) → ProbeCheck → ProbeCheck
  after_fetch (err e) next = probe_failure read_state e
  after_fetch (ok (preview, seen)) next =
      if seen.observed && not seen.seen_before then preserved_check seen else next

  abbrev pub after_seen_state : ℕ → Result SourceError (Bool × Bool) → ProbeCheck → ProbeCheck
  after_seen_state uid (err e) next = probe_failure read_state e
  after_seen_state uid (ok (observed, seen_before)) next =
      if not observed || seen_before
      then next
      else after_fetch (src.fetch_body_preview_and_seen_state acct folder uid 1) next

  -- The loop over the UIDs, and what follows it.
  unfoldable pub scan_uids : List ℕ → ProbeCheck
  scan_uids [] = fixture_required
  scan_uids (uid ∷ uids) =
      after_seen_state uid (src.fetch_seen_state acct folder uid) (scan_uids uids)

  -- uids[len(uids)-readStateFixtureScanLimit:]
  abbrev pub last_uids : List ℕ → List ℕ
  last_uids uids =
      if ltb scan_limit (length uids) then drop (length uids - scan_limit) uids else uids

  abbrev pub scan_check : Result SourceError (List ℕ) → ProbeCheck
  scan_check (err e) = probe_failure read_state e
  scan_check (ok uids) = scan_uids (last_uids uids)

  -- probeReadState
  unfoldable pub probe_read_state : RemoteFolderState → List Evidence → ProbeCheck
  unfolding read_state_fixture_uids scan_uids
  probe_read_state state evidence = scan_check (read_state_fixture_uids state evidence)

-- readStatePrerequisitesMet
unfoldable pub read_state_prerequisites_met : Account → HeaderResult → Bool
read_state_prerequisites_met acct r =
    if not (same acct.policy policy_domain)
    then true
    else if is_failed r.check.status
    then false
    else ltb 0 (length r.evidence)
