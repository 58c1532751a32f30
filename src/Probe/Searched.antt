-- ===== src/Probe/Searched.antt =====
-- internal/providerprobe/imap.go: where the evidence of the header searches comes from.
use ksuite_mail.Common.{
  ℕ, ◌≡◌, refl, inl, inr, true, Bool-cases, List, [], ◌∷◌, ◌++◌, In, All, Result, ok, err, ◌>>=◌,
  Text, codes, same,
}
use ksuite_mail.Strings.{Platform, trim_space, is_empty}
use ksuite_mail.Mail.{Account, policy_full}
use ksuite_mail.Refresh.Source.{Source, SourceError}
use ksuite_mail.Probe.Checks.{sent_folder}
use ksuite_mail.Probe.Strategy.{everything}
use ksuite_mail.Probe.Headers.{
  Evidence, HeaderResult, Progress, headers, probe_negative_value, after_negative, after_search,
  search_in, evidence_of, probe_header, probe_headers, probe_domains, concluded, no_progress,
  probe_domain_headers,
}

module _ (p : Platform) (src : Source) (acct : Account) where
  -- The UIDs are those that the search for a configured domain in one of the four headers gave.
  abbrev pub IsSearched : Evidence → Type 0
  IsSearched e =
      (domain : Text) × In domain acct.domains
      × (e.domain ≡ trim_space domain)
      × In e.header headers
      × (src.search_allowed acct e.folder e.header e.domain everything ≡ ok e.uids)

  abbrev Gathers : Result HeaderResult Progress → Type 0
  Gathers (err r) = All IsSearched r.evidence
  Gathers (ok g) = All IsSearched g.evidence

  All-append :
      (es fs : List Evidence) → All IsSearched es → All IsSearched fs → All IsSearched (es ++ fs)
  All-append [] fs h k = k
  All-append (e ∷ es) fs (q, h) k = (q, All-append es fs h k)

  Gathers-bind :
      (r : Result HeaderResult Progress) (f : Progress → Result HeaderResult Progress)
      → Gathers r
      → ((g : Progress) → All IsSearched g.evidence → Gathers (f g))
      → Gathers (r >>= f)
  Gathers-bind (err r) f k l = k
  Gathers-bind (ok g) f k l = l g k

  module _ (domain : Text) (i : In domain acct.domains) where
    evidence_of-IsSearched :
        (header target : Text) (uids : List ℕ)
        → In header headers
        → src.search_allowed acct target header (trim_space domain) everything ≡ ok uids
        → All IsSearched (evidence_of p src acct (trim_space domain) header target uids)
    evidence_of-IsSearched header target [] j q = tt
    evidence_of-IsSearched header target (u ∷ us) j q = ((domain, i, refl, j, q), tt)

    search_in-Gathers :
        (header target : Text) (g : Progress)
        → In header headers
        → All IsSearched g.evidence
        → Gathers (search_in p src acct (trim_space domain) header target g)
    search_in-Gathers header target g j h =
        searched (src.search_allowed acct target header (trim_space domain) everything) refl
      where
        negative :
            (uids : List ℕ) (r : Result SourceError (List ℕ))
            → src.search_allowed acct target header (trim_space domain) everything ≡ ok uids
            → Gathers (after_negative p src acct (trim_space domain) header target g uids r)
        negative uids (err e) q = tt
        negative uids (ok []) q =
            All-append g.evidence (evidence_of p src acct (trim_space domain) header target uids) h
              (evidence_of-IsSearched header target uids j q)
        negative uids (ok (u ∷ us)) q = tt

        searched :
            (r : Result SourceError (List ℕ))
            → src.search_allowed acct target header (trim_space domain) everything ≡ r
            → Gathers (after_search p src acct (trim_space domain) header target g r)
        searched (err e) q = tt
        searched (ok uids) q =
            negative uids (src.search_allowed acct target header probe_negative_value everything) q

    probe_header-Gathers :
        (folder header : Text) (g : Progress)
        → In header headers
        → All IsSearched g.evidence
        → Gathers (probe_header p src acct folder (trim_space domain) header g)
    unfolding probe_header
    probe_header-Gathers folder header g j h = elim (Bool-cases (same header (codes "Bcc"))) [
      | inr e ↦ rw e (search_in-Gathers header folder g j h)
      | inl e ↦ elim (Bool-cases (is_empty (sent_folder p acct.folders))) [
        | inl n ↦ rw (e, n) h
        | inr n ↦ rw (e, n) (search_in-Gathers header (sent_folder p acct.folders) g j h)
      ]
    ]

    probe_headers-Gathers :
        (folder : Text) (hs : List Text) (g : Progress)
        → ((header : Text) → In header hs → In header headers)
        → All IsSearched g.evidence
        → Gathers (probe_headers p src acct folder (trim_space domain) hs g)
    unfolding probe_headers
    probe_headers-Gathers folder [] g j h = h
    probe_headers-Gathers folder (x ∷ hs) g j h =
        Gathers-bind (probe_header p src acct folder (trim_space domain) x g) _
          (probe_header-Gathers folder x g (j x (inl refl)) h)
          (λ g' k. probe_headers-Gathers folder hs g' (λ y l. j y (inr l)) k)

  probe_domains-Gathers :
      (folder : Text) (ds : List Text) (g : Progress)
      → ((domain : Text) → In domain ds → In domain acct.domains)
      → All IsSearched g.evidence
      → Gathers (probe_domains p src acct folder ds g)
  unfolding probe_domains
  probe_domains-Gathers folder [] g j h = h
  probe_domains-Gathers folder (d ∷ ds) g j h = elim (Bool-cases (is_empty (trim_space d))) [
    | inl e ↦ rw e (probe_domains-Gathers folder ds g (λ x i. j x (inr i)) h)
    | inr e ↦ rw e (
        Gathers-bind
          (probe_headers p src acct folder (trim_space d) headers
            (record g { checked_domain = true }))
          _
          (probe_headers-Gathers d (j d (inl refl)) folder headers
            (record g { checked_domain = true }) (λ x i. i) h)
          (λ g' k. probe_domains-Gathers folder ds g' (λ x i. j x (inr i)) k))
  ]

  concluded-IsSearched :
      (r : Result HeaderResult Progress)
      → Gathers r
      → All IsSearched (concluded p src acct r).evidence
  concluded-IsSearched (err r) k = k
  concluded-IsSearched (ok g) k = elim (Bool-cases g.checked_domain) [
    | inr e ↦ rw e tt
    | inl e ↦ elim (Bool-cases g.missing_fixture) [ inl m ↦ rw (e, m) k | inr m ↦ rw (e, m) k ]
  ]

  -- Every piece of evidence of the header searches is what a search for a configured domain gave.
  pub probe_domain_headers-IsSearched :
      (folder : Text) → All IsSearched (probe_domain_headers p src acct folder).evidence
  unfolding probe_domain_headers
  probe_domain_headers-IsSearched folder = elim (Bool-cases (same acct.policy policy_full)) [
    | inl e ↦ rw e tt
    | inr e ↦ elim (Bool-cases (is_empty acct.domains)) [
      | inl n ↦ rw (e, n) tt
      | inr n ↦
          rw (e, n)
            (concluded-IsSearched
              (probe_domains p src acct folder acct.domains (no_progress p src acct))
              (probe_domains-Gathers folder acct.domains (no_progress p src acct) (λ x i. i) tt))
    ]
  ]
