-- ===== src/Probe/Ids.antt =====
-- internal/providerprobe/imap.go: the id of each check.
use ksuite_mail.Common.{
  ℕ, ◌≡◌, refl, Bool, true, false, ◌&&◌, ◌||◌, not, Option, none, some, List, [], ◌∷◌, Result, ok,
  err, ◌>>=◌, if◌then◌else◌, Text, codes, same,
}
use ksuite_mail.Strings.{Platform, is_empty, trim_space}
use ksuite_mail.Mail.{Account, RemoteFolderState}
use ksuite_mail.Common.Ints.{positive}
use ksuite_mail.Mail.{policy_full}
use ksuite_mail.Api.Reports.{ProbeCheck}
use ksuite_mail.Refresh.Source.{Source, SourceError, ReadStateProbeResult}
use ksuite_mail.Probe.Checks.{
  uid_behavior, refresh_strategy, domain_header, read_state, domain_probe_not_run, sent_folder,
}
use ksuite_mail.Probe.Strategy.{
  inconclusive_refresh_strategy, check_refresh_strategy, probe_uid_behavior, listed_check,
  ranged_check, is_failed, everything, without_uid_state, is_passed, is_mismatch, is_single,
  supports_condstore,
}
use ksuite_mail.Probe.Headers.{
  Evidence, HeaderResult, Progress, probe_domain_headers, probe_domains, concluded, probe_header,
  probe_headers, after_negative, after_search, search_in, headers, no_progress,
}
use ksuite_mail.Probe.ReadState.{
  probe_read_state, scan_check, scan_uids, after_seen_state, after_fetch, read_state_fixture_uids,
}

pub if_id :
    {i : Text} (b : Bool) (c d : ProbeCheck) → c.id ≡ i → d.id ≡ i → (if b then c else d).id ≡ i
if_id true c d hc hd = hc
if_id false c d hc hd = hd

result_id :
    {i : Text} (b : Bool) (r t : HeaderResult)
    → r.check.id ≡ i
    → t.check.id ≡ i
    → (if b then r else t).check.id ≡ i
result_id true r t hr ht = hr
result_id false r t hr ht = ht

pub domain_probe_not_run_id : (acct : Account) → (domain_probe_not_run acct).id ≡ domain_header
unfolding domain_probe_not_run
domain_probe_not_run_id acct = if_id (same acct.policy policy_full) _ _ refl refl

pub inconclusive_refresh_strategy_id :
    (p : Platform) (caps : Option (List Text)) (code detail : Text)
    → (inconclusive_refresh_strategy p caps code detail).id ≡ refresh_strategy
unfolding inconclusive_refresh_strategy
inconclusive_refresh_strategy_id p none code detail = refl
inconclusive_refresh_strategy_id p (some caps) code detail = refl

pub check_refresh_strategy_id :
    (p : Platform) (caps : List Text) (state : RemoteFolderState) (behavior : ProbeCheck)
    → (check_refresh_strategy p caps state behavior).id ≡ refresh_strategy
unfolding check_refresh_strategy
check_refresh_strategy_id p caps state behavior = if_id (without_uid_state state) _ _ refl (
    if_id (supports_condstore p caps && positive state.highest_mod_seq) _ _ refl
      (if_id (is_passed behavior.status) _ _ refl (if_id (is_mismatch behavior) _ _ refl refl)))

module _ (src : Source) (acct : Account) (folder : Text) where
  ranged_check_id :
      (u : ℕ) (us : List ℕ) (r : Result SourceError (List ℕ))
      → (ranged_check u us r).id ≡ uid_behavior
  ranged_check_id u us (err e) = refl
  ranged_check_id u us (ok ranged) = if_id (is_single u ranged) _ _ refl refl

  listed_check_id :
      (r : Result SourceError (List ℕ)) → (listed_check src acct folder r).id ≡ uid_behavior
  listed_check_id (err e) = refl
  listed_check_id (ok []) = refl
  listed_check_id (ok (u ∷ [])) = refl
  listed_check_id (ok (u ∷ v ∷ us)) = ranged_check_id u (u ∷ v ∷ us) _

  pub probe_uid_behavior_id : (probe_uid_behavior src acct folder).id ≡ uid_behavior
  unfolding probe_uid_behavior
  probe_uid_behavior_id = listed_check_id (src.list_uids acct folder everything)

  after_fetch_id :
      (r : Result SourceError (Text × ReadStateProbeResult)) (next : ProbeCheck)
      → next.id ≡ read_state
      → (after_fetch src acct folder r next).id ≡ read_state
  after_fetch_id (err e) next h = refl
  after_fetch_id (ok (preview, seen)) next h =
      if_id (seen.observed && not seen.seen_before) _ _ (if_id seen.seen_after _ _ refl refl) h

  after_seen_state_id :
      (uid : ℕ) (r : Result SourceError (Bool × Bool)) (next : ProbeCheck)
      → next.id ≡ read_state
      → (after_seen_state src acct folder uid r next).id ≡ read_state
  after_seen_state_id uid (err e) next h = refl
  after_seen_state_id uid (ok (observed, seen_before)) next h =
      if_id (not observed || seen_before) _ _ h (after_fetch_id _ next h)

  scan_uids_id : (uids : List ℕ) → (scan_uids src acct folder uids).id ≡ read_state
  unfolding scan_uids
  scan_uids_id [] = refl
  scan_uids_id (uid ∷ uids) = after_seen_state_id uid _ _ (scan_uids_id uids)

  scan_check_id : (r : Result SourceError (List ℕ)) → (scan_check src acct folder r).id ≡ read_state
  scan_check_id (err e) = refl
  scan_check_id (ok uids) = scan_uids_id _

  pub probe_read_state_id :
      (state : RemoteFolderState) (evidence : List Evidence)
      → (probe_read_state src acct folder state evidence).id ≡ read_state
  unfolding probe_read_state
  probe_read_state_id state evidence =
      scan_check_id (read_state_fixture_uids src acct folder state evidence)

-- A `return` in the loops of probeDomainHeaders is of a failed check of that id.
abbrev pub Returned : Result HeaderResult Progress → Type 0
Returned (ok g) = Unit {0}
Returned (err r) = (r.check.id ≡ domain_header) × (is_failed r.check.status ≡ true)

Returned-bind :
    (m : Result HeaderResult Progress) (f : Progress → Result HeaderResult Progress)
    → Returned m
    → ((g : Progress) → Returned (f g))
    → Returned (m >>= f)
Returned-bind (ok g) f hm hf = hf g
Returned-bind (err r) f hm hf = hm

Returned-if :
    (b : Bool) (m n : Result HeaderResult Progress)
    → Returned m
    → Returned n
    → Returned (if b then m else n)
Returned-if true m n hm hn = hm
Returned-if false m n hm hn = hn

module _ (p : Platform) (src : Source) (acct : Account) where
  after_negative-Returned :
      (domain header target : Text) (g : Progress) (uids : List ℕ) (r : Result SourceError (List ℕ))
      → Returned (after_negative p src acct domain header target g uids r)
  after_negative-Returned domain header target g uids (err e) = (refl, refl)
  after_negative-Returned domain header target g uids (ok []) = tt
  after_negative-Returned domain header target g uids (ok (u ∷ us)) = (refl, refl)

  after_search-Returned :
      (domain header target : Text) (g : Progress) (r : Result SourceError (List ℕ))
      → Returned (after_search p src acct domain header target g r)
  after_search-Returned domain header target g (err e) = (refl, refl)
  after_search-Returned domain header target g (ok uids) =
      after_negative-Returned domain header target g uids _

  search_in-Returned :
      (domain header target : Text) (g : Progress)
      → Returned (search_in p src acct domain header target g)
  search_in-Returned domain header target g =
      after_search-Returned domain header target g
        (src.search_allowed acct target header domain everything)

  probe_header-Returned :
      (folder domain header : Text) (g : Progress)
      → Returned (probe_header p src acct folder domain header g)
  unfolding probe_header
  probe_header-Returned folder domain header g =
      Returned-if (same header (codes "Bcc")) _ _
        (Returned-if (is_empty (sent_folder p acct.folders)) _ _ tt
          (search_in-Returned domain header (sent_folder p acct.folders) g))
        (search_in-Returned domain header folder g)

  probe_headers-Returned :
      (folder domain : Text) (hs : List Text) (g : Progress)
      → Returned (probe_headers p src acct folder domain hs g)
  unfolding probe_headers
  probe_headers-Returned folder domain [] g = tt
  probe_headers-Returned folder domain (h ∷ hs) g =
      Returned-bind _ _ (probe_header-Returned folder domain h g)
        λ g'. probe_headers-Returned folder domain hs g'

  pub probe_domains-Returned :
      (folder : Text) (ds : List Text) (g : Progress)
      → Returned (probe_domains p src acct folder ds g)
  unfolding probe_domains
  probe_domains-Returned folder [] g = tt
  probe_domains-Returned folder (d ∷ ds) g =
      Returned-bind _ _
        (Returned-if (is_empty (trim_space d)) _ _ tt
          (probe_headers-Returned folder (trim_space d) headers _))
        λ g'. probe_domains-Returned folder ds g'

  concluded_id :
      (r : Result HeaderResult Progress)
      → Returned r
      → (concluded p src acct r).check.id ≡ domain_header
  concluded_id (err r) h = h.0
  concluded_id (ok g) h =
      result_id (not g.checked_domain) _ _ refl (result_id g.missing_fixture _ _ refl refl)

  pub probe_domain_headers_id :
      (folder : Text) → (probe_domain_headers p src acct folder).check.id ≡ domain_header
  unfolding probe_domain_headers
  probe_domain_headers_id folder = result_id (same acct.policy policy_full) _ _ refl (
      result_id (is_empty acct.domains) _ _ refl (
        concluded_id (probe_domains p src acct folder acct.domains (no_progress p src acct))
          (probe_domains-Returned folder acct.domains _)))
