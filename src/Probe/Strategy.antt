-- ===== src/Probe/Strategy.antt =====
-- internal/providerprobe/imap.go: UID ranges, and the choice of a refresh strategy.
use ksuite_mail.Common.{
  ℕ, Bool, true, false, ◌&&◌, ◌||◌, Option, none, some, List, [], ◌∷◌, ◌++◌, Result, ok, err,
  if◌then◌else◌, ◌==◌, Text, codes, same, any, length,
}
use ksuite_mail.Common.Ints.{positive}
use ksuite_mail.Strings.{Platform, trim_space, equal_fold}
use ksuite_mail.Mail.{Account, UidRange, RemoteFolderState, decimal}
use ksuite_mail.Api.Reports.{
  ProbeStatus, passed, failed, inconclusive, not_applicable, ProbeCheck, ProbeFacts, no_facts,
}
use ksuite_mail.Refresh.Source.{Source, SourceError}
use ksuite_mail.Probe.Checks.{
  probe_check, probe_check_facts, probe_failure, uid_behavior, refresh_strategy,
}

-- hasCapability
unfoldable pub has_capability : Platform → List Text → Text → Bool
unfolding trim_space
has_capability p caps want = any (λ cap. equal_fold p (trim_space cap) want) caps

-- supportsCondstore
unfoldable pub supports_condstore : Platform → List Text → Bool
unfolding has_capability
supports_condstore p caps =
    has_capability p caps (codes "CONDSTORE") || has_capability p caps (codes "QRESYNC")

abbrev pub is_passed : ProbeStatus → Bool
is_passed passed = true
is_passed failed = false
is_passed inconclusive = false
is_passed not_applicable = false

abbrev pub is_failed : ProbeStatus → Bool
is_failed passed = false
is_failed failed = true
is_failed inconclusive = false
is_failed not_applicable = false

abbrev pub is_mismatch : ProbeCheck → Bool
is_mismatch c = is_failed c.status && same c.code (codes "uid_range_mismatch")

-- uidRangeSupported
unfoldable pub uid_range_supported : ProbeCheck → Option Bool
uid_range_supported c =
    if is_passed c.status then some true else if is_mismatch c then some false else none

-- inconclusiveRefreshStrategy
unfoldable pub inconclusive_refresh_strategy :
    Platform → Option (List Text) → Text → Text → ProbeCheck
unfolding supports_condstore
inconclusive_refresh_strategy p none code detail =
    probe_check_facts refresh_strategy inconclusive code detail
      (record no_facts { refresh_strategy = codes "inconclusive" })
inconclusive_refresh_strategy p (some caps) code detail =
    probe_check_facts refresh_strategy inconclusive code detail (record no_facts {
      refresh_strategy = codes "inconclusive";
      condstore_supported = some (supports_condstore p caps);
    })

abbrev pub strategy_check : ProbeStatus → Text → Text → Text → ProbeFacts → ProbeCheck
strategy_check status strategy code detail facts =
    probe_check_facts refresh_strategy status code detail
      (record facts { refresh_strategy = strategy })

abbrev pub without_uid_state : RemoteFolderState → Bool
without_uid_state state = state.uidvalidity == 0 || state.uidnext == 0

-- checkRefreshStrategy, which both its callers give a state.
unfoldable pub check_refresh_strategy :
    Platform → List Text → RemoteFolderState → ProbeCheck → ProbeCheck
unfolding supports_condstore uid_range_supported
check_refresh_strategy p caps state behavior =
    let condstore = supports_condstore p caps in
    let facts = record no_facts {
      condstore_supported = some condstore;
      uid_range_supported = uid_range_supported behavior;
    } in
    let more = record facts { highest_mod_seq_available = some (positive state.highest_mod_seq) } in
    if without_uid_state state
    then strategy_check inconclusive (codes "inconclusive") (codes "prerequisite_failed")
        (codes "refresh strategy requires complete UID state") facts
    else if condstore && positive state.highest_mod_seq
    then strategy_check passed (codes "modseq") (codes "modseq_strategy")
        (codes "MODSEQ strategy is supported") more
    else if is_passed behavior.status
    then strategy_check passed (codes "uid_range") (codes "uid_range_strategy")
        (codes "UID range strategy is supported") more
    else if is_mismatch behavior
    then strategy_check failed (codes "unsupported") (codes "strategy_unsupported") behavior.detail
        more
    else strategy_check inconclusive (codes "inconclusive") (codes "strategy_inconclusive")
        (codes "missing fixture evidence for strategy selection") more

abbrev pub is_single : ℕ → List ℕ → Bool
is_single u [] = false
is_single u (v ∷ []) = v == u
is_single u (v ∷ w ∷ ws) = false

abbrev pub counts_detail : List ℕ → List ℕ → Text
counts_detail uids ranged =
    codes "uid_count=" ++ decimal (length uids) ++ codes " range_count=" ++ decimal (length ranged)

abbrev pub everything : UidRange
everything = record { min = 0; max = 0 }

abbrev pub ranged_check : ℕ → List ℕ → Result SourceError (List ℕ) → ProbeCheck
ranged_check u uids (err e) = probe_failure uid_behavior e
ranged_check u uids (ok ranged) =
    if is_single u ranged
    then probe_check_facts uid_behavior passed (codes "uid_range_ok") (counts_detail uids ranged)
        (record no_facts { uid_range_supported = some true })
    else probe_check_facts uid_behavior failed (codes "uid_range_mismatch")
        (counts_detail uids ranged) (record no_facts { uid_range_supported = some false })

module _ (src : Source) (acct : Account) (folder : Text) where
  abbrev pub few_uids : ProbeCheck
  few_uids =
      probe_check uid_behavior inconclusive (codes "fixture_required")
        (codes "at least two fixture UIDs are required")

  abbrev pub listed_check : Result SourceError (List ℕ) → ProbeCheck
  listed_check (err e) = probe_failure uid_behavior e
  listed_check (ok []) = few_uids
  listed_check (ok (u ∷ [])) = few_uids
  listed_check (ok (u ∷ v ∷ us)) =
      ranged_check u (u ∷ v ∷ us) (src.list_uids acct folder (record { min = u; max = u }))

  -- probeUIDBehavior
  unfoldable pub probe_uid_behavior : ProbeCheck
  probe_uid_behavior = listed_check (src.list_uids acct folder everything)
