-- ===== src/Probe/Sound.antt =====
-- internal/providerprobe/imap.go: what a response that has passed says of the provider.
use ksuite_mail.Common.{
  ℕ, ◌≡◌, refl, ap, sym, ◌∙◌, ◌⊎◌, inl, inr, true, false, Bool-cases, Option, none, some, List, [],
  ◌∷◌, Result, ok, err, ok_injective, Text, any, same, arith, All, In,
}
use ksuite_mail.Strings.{Platform, is_empty}
use ksuite_mail.Mail.{Account, RemoteFolderState, policy_full}
use ksuite_mail.Api.Reports.{passed, ProbeCheck}
use ksuite_mail.Refresh.Source.{Source, SourceError}
use ksuite_mail.Probe.Checks.{first_folder}
use ksuite_mail.Probe.Strategy.{is_failed, without_uid_state}
use ksuite_mail.Probe.Headers.{
  Evidence, HeaderResult, Progress, probe_domain_headers, probe_domains, concluded, no_progress,
}
use ksuite_mail.Probe.ReadState.{
  read_state_fixture_uids, last_uids, scan_check, probe_read_state, read_state_prerequisites_met,
}
use ksuite_mail.Probe.Run.{
  run_imap, after_capabilities, after_folders, after_select, probe_folder, probe_bare_folder,
  read_state_check,
}
use ksuite_mail.Probe.Ids.{Returned, probe_domains-Returned}
use ksuite_mail.Probe.Checklist.{is_inconclusive, worst, run_imap-checklist}
use ksuite_mail.Probe.Evident.{
  IsFine, IsRanged, IsPreserved, AllFound, has_domain, probe_uid_behavior-IsRanged,
  scan_uids-IsPreserved, domains_found, probe_domains_blank,
}

IsFine-tail :
    (cs : List ProbeCheck)
    → any (λ (c : ProbeCheck). is_failed c.status) cs ≡ false
    → any (λ (c : ProbeCheck). is_inconclusive c.status) cs ≡ false
    → All IsFine cs
IsFine-tail [] f i = tt
IsFine-tail (c ∷ cs) f i = (ground arith, IsFine-tail cs (ground arith) (ground arith))

worst-AllFine : (cs : List ProbeCheck) → worst passed cs ≡ passed → All IsFine cs
worst-AllFine cs h = elim (Bool-cases (any (λ (c : ProbeCheck). is_failed c.status) cs)) [
  | inl f ↦ cc (rw f at h)
  | inr f ↦ elim (Bool-cases (any (λ (c : ProbeCheck). is_inconclusive c.status) cs)) [
    | inl i ↦ cc (rw (f, i) at h)
    | inr i ↦ IsFine-tail cs f i
  ]
]

module _ (p : Platform) (acct : Account) (src : Source) where
  -- For an account without the full policy: there is a domain, and each is found in each header, while
  -- the negative value is found in none.
  abbrev pub IsFiltered : Text → Type 0
  IsFiltered folder =
      (same acct.policy policy_full ≡ true)
      ⊎ ((has_domain p src acct folder acct.domains ≡ true)
          × AllFound p src acct folder acct.domains)

  concluded_fine :
      (r : Result HeaderResult Progress)
      → Returned r
      → IsFine (concluded p src acct r).check
      → (g : Progress) × (r ≡ ok g) × (g.checked_domain ≡ true) × (g.missing_fixture ≡ false)
  concluded_fine (err r) (i, f) h = cc (rw f at h)
  concluded_fine (ok g) t h = elim (Bool-cases g.checked_domain) [
    | inr c ↦ cc (rw c at h)
    | inl c ↦ elim (Bool-cases g.missing_fixture) [
      | inl m ↦ cc (rw (c, m) at h)
      | inr m ↦ (g, refl, c, m)
    ]
  ]

  domains_filtered :
      (folder : Text)
      → IsFine
          (concluded p src acct
            (probe_domains p src acct folder acct.domains (no_progress p src acct))).check
      → (has_domain p src acct folder acct.domains ≡ true) × AllFound p src acct folder acct.domains
  domains_filtered folder h =
      let start = no_progress p src acct in
      let (g, q, c, m) =
        concluded_fine _ (probe_domains-Returned p src acct folder acct.domains start) h in
      let (_, found) = domains_found p src acct folder acct.domains start g q m in
      elim (Bool-cases (has_domain p src acct folder acct.domains)) [
        | inl some_domain ↦ (some_domain, found)
        | inr no_domain ↦ cc (
          ap (λ (x : Progress). x.checked_domain)
              (ok_injective
                (sym q ∙ probe_domains_blank p src acct folder acct.domains start no_domain)),
          c,
        )
      ]

  probe_domain_headers-IsFiltered :
      (folder : Text) → IsFine (probe_domain_headers p src acct folder).check → IsFiltered folder
  unfolding probe_domain_headers
  probe_domain_headers-IsFiltered folder h = elim (Bool-cases (same acct.policy policy_full)) [
    | inl full ↦ inl full
    | inr partial ↦ elim (Bool-cases (is_empty acct.domains)) [
      | inl bare ↦ cc (rw (partial, bare) at h)
      | inr some_domains ↦ inr (domains_filtered folder (rw (partial, some_domains) at h))
    ]
  ]

  -- Of the messages that may serve for it, one is not marked as seen when its body is fetched.
  abbrev pub IsPeeked : Text → RemoteFolderState → List Evidence → Type 0
  IsPeeked folder state evidence =
      (uids : List ℕ) × (uid : ℕ) × (read_state_fixture_uids src acct folder state evidence
        ≡ ok uids)
      × In uid (last_uids src acct folder uids)
      × IsPreserved src acct folder uid

  scan_fine :
      (folder : Text) (state : RemoteFolderState) (evidence : List Evidence)
      (r : Result SourceError (List ℕ))
      → read_state_fixture_uids src acct folder state evidence ≡ r
      → IsFine (scan_check src acct folder r)
      → IsPeeked folder state evidence
  scan_fine folder state evidence (err e) q h = cc
  scan_fine folder state evidence (ok uids) q h =
      let (uid, i, k) = scan_uids-IsPreserved src acct folder (last_uids src acct folder uids) h in
      (uids, uid, q, i, k)

  read_state_check-IsPeeked :
      (folder : Text) (state : RemoteFolderState) (r : HeaderResult)
      → IsFine (read_state_check p acct src folder state r)
      → IsPeeked folder state r.evidence
  unfolding probe_read_state
  read_state_check-IsPeeked folder state r h =
      elim (Bool-cases (read_state_prerequisites_met acct r)) [
        | inl met ↦ scan_fine folder state r.evidence _ refl (rw met at h)
        | inr unmet ↦ cc (rw unmet at h)
      ]

  -- The folder probed, and its state.
  abbrev pub IsProbed : Text → RemoteFolderState → Type 0
  IsProbed folder state =
      (src.select_folder acct folder ≡ ok state)
      × (without_uid_state state ≡ false)
      × IsRanged src acct folder
      × IsFiltered folder
      × IsPeeked folder state (probe_domain_headers p src acct folder).evidence

  select_fine :
      (caps : List Text) (folder : Text) (r : Result SourceError RemoteFolderState)
      → src.select_folder acct folder ≡ r
      → All IsFine (after_select p acct src caps folder r)
      → (state : RemoteFolderState) × IsProbed folder state
  unfolding probe_folder probe_bare_folder
  select_fine caps folder (err e) q h = cc h.0
  select_fine caps folder (ok state) q h = elim (Bool-cases (without_uid_state state)) [
    | inl bare ↦ cc ((rw bare at h).0)
    | inr full ↦
        let (_, (ranged, (_, (filtered, (peeked, _))))) = rw full at h in
        (
          state,
          (
            q,
            full,
            probe_uid_behavior-IsRanged src acct folder ranged,
            probe_domain_headers-IsFiltered folder filtered,
            read_state_check-IsPeeked folder state (probe_domain_headers p src acct folder) peeked,
          ),
        )
  ]

  -- The source answers, it has folders, and the first configured folder has been probed.
  abbrev pub IsSound : Type 0
  IsSound =
      (caps : List Text) × (f : Text) × (fs : List Text) × (state : RemoteFolderState)
      × (src.capabilities acct ≡ ok caps)
      × (src.folders acct ≡ ok (f ∷ fs))
      × (is_empty (first_folder acct.folders) ≡ false)
      × IsProbed (first_folder acct.folders) state

  folders_fine :
      (caps : List Text) (r : Result SourceError (List Text))
      → src.capabilities acct ≡ ok caps
      → src.folders acct ≡ r
      → All IsFine (after_folders p acct src caps r)
      → IsSound
  folders_fine caps (err e) c q h = cc h.0
  folders_fine caps (ok []) c q h = cc h.0
  folders_fine caps (ok (f ∷ fs)) c q h = elim (Bool-cases (is_empty (first_folder acct.folders))) [
    | inl bare ↦ cc ((rw bare at h.1).0)
    | inr full ↦
        let (state, probed) =
          select_fine caps (first_folder acct.folders) _ refl (rw full at h.1) in
        (caps, f, fs, state, c, q, full, probed)
  ]

  capabilities_fine :
      (r : Result SourceError (List Text))
      → src.capabilities acct ≡ r
      → All IsFine (after_capabilities p acct src r)
      → IsSound
  capabilities_fine (err e) q h = cc h.0
  capabilities_fine (ok caps) q h = folders_fine caps _ q refl h.1

-- A response that has passed rests on evidence: there is a source, which answers and has folders; the
-- first configured folder that is not blank has a UIDVALIDITY and a UIDNEXT, and the range of its first
-- UID has that UID alone; unless the policy is full, every configured domain is found in every header,
-- while a domain that is nobody's is found in none; and a message of the folder that was not seen is
-- not seen after its body was fetched.
pub run_imap-IsSound :
    (p : Platform) (acct : Account) (source : Option Source)
    → (run_imap p acct source).status ≡ passed
    → (src : Source) × (source ≡ some src) × IsSound p acct src
unfolding run_imap
run_imap-IsSound p acct none h = cc (
    (worst-AllFine (run_imap p acct none).checks
      (sym (run_imap-checklist p acct none).1 ∙ h)).1.1.0)
run_imap-IsSound p acct (some src) h =
    let fine =
      worst-AllFine (run_imap p acct (some src)).checks
        (sym (run_imap-checklist p acct (some src)).1 ∙ h) in
    (src, refl, capabilities_fine p acct src _ refl fine.1.1)
