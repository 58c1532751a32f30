-- ===== src/Probe/Headers.antt =====
-- internal/providerprobe/imap.go: probeDomainHeaders.
use ksuite_mail.Common.{
  ℕ, Bool, true, false, ◌||◌, not, List, [], ◌∷◌, ◌++◌, Result, ok, err, ◌>>=◌, if◌then◌else◌, Text,
  codes, same, length,
}
use ksuite_mail.Strings.{Platform, trim_space, to_lower, is_empty, join}
use ksuite_mail.Mail.{Account, decimal, policy_full}
use ksuite_mail.Api.Reports.{
  ProbeStatus, passed, failed, inconclusive, ProbeCheck, ProbeFacts, DomainHeaderSearch, no_facts,
}
use ksuite_mail.Refresh.Source.{Source, SourceError}
use ksuite_mail.Probe.Checks.{
  probe_check, probe_check_facts, probe_failure, domain_header, full_policy_check, sent_folder,
}
use ksuite_mail.Probe.Strategy.{everything}

abbrev pub probe_negative_value : Text
probe_negative_value = codes "ksuite-mail-probe.invalid"

-- domainHeaderEvidence
pub record Evidence : Type 0 where
  pub folder : Text
  pub header : Text
  pub domain : Text
  pub uids : List ℕ

-- domainHeaderProbeResult
pub record HeaderResult : Type 0 where
  pub check : ProbeCheck
  pub evidence : List Evidence

-- The variables of the loops.
pub record Progress : Type 0 where
  pub searches : List DomainHeaderSearch
  pub counts : List Text
  pub evidence : List Evidence
  pub missing_fixture : Bool
  pub checked_domain : Bool

abbrev pub result_of : ProbeCheck → HeaderResult
result_of c = record { check = c; evidence = [] }

abbrev facts_of : List DomainHeaderSearch → ProbeFacts
facts_of searches = record no_facts { domain_header_search = searches }

abbrev pub headers : List Text
headers = codes "From" ∷ codes "To" ∷ codes "Cc" ∷ codes "Bcc" ∷ []

module _ (p : Platform) (src : Source) (acct : Account) where
  -- What a `return` in the loops is: the error of a round.
  abbrev pub Round : Type 0
  Round = Result HeaderResult Progress

  abbrev count_text : Text → List ℕ → Text
  count_text header uids = to_lower p header ++ codes "_count=" ++ decimal (length uids)

  abbrev pub searched : Text → Text → List ℕ → Bool → DomainHeaderSearch
  searched domain header uids visible = record {
    domain = domain;
    header = header;
    matched_uid_count = length uids;
    nonmatching_visible = visible;
  }

  -- The search for Bcc without a folder for sent mail.
  abbrev pub skip_header : Text → Text → Progress → Progress
  skip_header domain header g = record g {
    missing_fixture = true;
    counts = g.counts ++ (count_text header [] ∷ []);
    searches = g.searches ++ (searched domain header [] false ∷ []);
  }

  abbrev pub evidence_of : Text → Text → Text → List ℕ → List Evidence
  evidence_of domain header target [] = []
  evidence_of domain header target (u ∷ us) =
      record { folder = target; header = header; domain = domain; uids = u ∷ us } ∷ []

  abbrev pub add_search : Text → Text → Text → List ℕ → Progress → Progress
  add_search domain header target uids g = record g {
    missing_fixture = g.missing_fixture || is_empty uids;
    counts = g.counts ++ (count_text header uids ∷ []);
    searches = g.searches ++ (searched domain header uids false ∷ []);
    evidence = g.evidence ++ evidence_of domain header target uids;
  }

  abbrev pub overbroad : Text → Text → List ℕ → Progress → HeaderResult
  overbroad domain header uids g = result_of (
      probe_check_facts domain_header failed (codes "header_search_overbroad")
        (codes "header="
          ++ to_lower p header
          ++ codes " domain="
          ++ domain
          ++ codes " domain_index_checked=true nonmatching_visible=true")
        (facts_of (g.searches ++ (searched domain header uids true ∷ []))))

  abbrev pub failure_of : SourceError → HeaderResult
  failure_of e = result_of (probe_failure domain_header e)

  -- The round past the search for the domain, and past the search for the negative value.
  abbrev pub after_negative :
      Text → Text → Text → Progress → List ℕ → Result SourceError (List ℕ) → Round
  after_negative domain header target g uids (err e) = err (failure_of e)
  after_negative domain header target g uids (ok []) = ok (add_search domain header target uids g)
  after_negative domain header target g uids (ok (u ∷ us)) = err (overbroad domain header uids g)

  abbrev pub after_search : Text → Text → Text → Progress → Result SourceError (List ℕ) → Round
  after_search domain header target g (err e) = err (failure_of e)
  after_search domain header target g (ok uids) =
      after_negative domain header target g uids
        (src.search_allowed acct target header probe_negative_value everything)

  abbrev pub search_in : Text → Text → Text → Progress → Round
  search_in domain header target g =
      after_search domain header target g (src.search_allowed acct target header domain everything)

  -- One round of the inner loop.
  unfoldable pub probe_header : Text → Text → Text → Progress → Round
  unfolding sent_folder
  probe_header folder domain header g =
      let sent = sent_folder p acct.folders in
      if same header (codes "Bcc")
      then (if is_empty sent
          then ok (skip_header domain header g)
          else search_in domain header sent g)
      else search_in domain header folder g

  unfoldable pub probe_headers : Text → Text → List Text → Progress → Round
  unfolding probe_header
  probe_headers folder domain [] g = ok g
  probe_headers folder domain (h ∷ hs) g = do
    g' ← probe_header folder domain h g
    probe_headers folder domain hs g'

  unfoldable pub probe_domains : Text → List Text → Progress → Round
  unfolding probe_headers trim_space
  probe_domains folder [] g = ok g
  probe_domains folder (d ∷ ds) g =
      let domain = trim_space d in
      do
        g' ←
            (if is_empty domain
              then ok g
              else probe_headers folder domain headers (record g { checked_domain = true }))
        probe_domains folder ds g'

  abbrev pub no_domain : HeaderResult
  no_domain = result_of (
      probe_check domain_header inconclusive (codes "no_domain")
        (codes "domain-policy account has no configured domain"))

  abbrev pub finished : ProbeStatus → Text → Progress → HeaderResult
  finished status code g = record {
    check =
        probe_check_facts domain_header status code (join (codes " ") g.counts)
          (facts_of g.searches);
    evidence = g.evidence;
  }

  abbrev pub concluded : Round → HeaderResult
  concluded (err r) = r
  concluded (ok g) =
      if not g.checked_domain
      then no_domain
      else if g.missing_fixture
      then finished inconclusive (codes "fixture_required") g
      else finished passed (codes "header_search_ok") g

  abbrev pub no_progress : Progress
  no_progress = record {
    searches = [];
    counts = [];
    evidence = [];
    missing_fixture = false;
    checked_domain = false;
  }

  -- probeDomainHeaders
  unfoldable pub probe_domain_headers : Text → HeaderResult
  unfolding probe_domains
  probe_domain_headers folder =
      if same acct.policy policy_full
      then result_of full_policy_check
      else if is_empty acct.domains
      then no_domain
      else concluded (probe_domains folder acct.domains no_progress)
