-- ===== src/Probe/Evident.antt =====
-- internal/providerprobe/imap.go: what stands behind the parts of the checklist that pass.
use ksuite_mail.Common.{
  ℕ, ◌≡◌, refl, ap, ◌∙◌, ◌⊎◌, inl, inr, Bool, true, false, ◌&&◌, ◌||◌, not, Bool-cases, List, [],
  ◌∷◌, Result, ok, err, >>=-ok, ok_injective, if◌then◌else◌, Text, codes, any, same, arith, ==_iff,
  All, In,
}
use ksuite_mail.Strings.{Platform, is_empty, trim_space}
use ksuite_mail.Mail.{Account}
use ksuite_mail.Api.Reports.{ProbeCheck}
use ksuite_mail.Refresh.Source.{Source, SourceError, ReadStateProbeResult}
use ksuite_mail.Probe.Checks.{sent_folder}
use ksuite_mail.Probe.Strategy.{
  is_failed, is_single, everything, listed_check, ranged_check, probe_uid_behavior,
}
use ksuite_mail.Probe.Headers.{
  HeaderResult, Progress, headers, probe_negative_value, probe_header, probe_headers, probe_domains,
  after_negative, after_search,
}
use ksuite_mail.Probe.ReadState.{after_seen_state, after_fetch, scan_uids}
use ksuite_mail.Probe.Checklist.{is_inconclusive}

-- Neither failed nor inconclusive.
abbrev pub IsFine : ProbeCheck → Type 0
IsFine c = (is_failed c.status || is_inconclusive c.status) ≡ false

module _ (src : Source) (acct : Account) (folder : Text) where
  -- The folder has two UIDs, and the range of the first has it and no other.
  abbrev pub IsRanged : Type 0
  IsRanged =
      (u v : ℕ) × (us : List ℕ) × (src.list_uids acct folder everything ≡ ok (u ∷ v ∷ us))
      × (src.list_uids acct folder (record { min = u; max = u }) ≡ ok (u ∷ []))

  single : (u : ℕ) (us : List ℕ) → is_single u us ≡ true → us ≡ u ∷ []
  single u [] h = cc
  single u (v ∷ []) h = ap (λ x. x ∷ []) ((==_iff v u).0 h)
  single u (v ∷ w ∷ ws) h = cc

  ranged_fine :
      (u : ℕ) (uids : List ℕ) (r : Result SourceError (List ℕ))
      → IsFine (ranged_check u uids r)
      → r ≡ ok (u ∷ [])
  ranged_fine u uids (err e) h = cc
  ranged_fine u uids (ok ranged) h = elim (Bool-cases (is_single u ranged)) [
    | inl e ↦ ap (λ x. ok x) (single u ranged e)
    | inr e ↦ cc (rw e at h)
  ]

  listed_fine :
      (r : Result SourceError (List ℕ))
      → src.list_uids acct folder everything ≡ r
      → IsFine (listed_check src acct folder r)
      → IsRanged
  listed_fine (err e) q h = cc
  listed_fine (ok []) q h = cc
  listed_fine (ok (u ∷ [])) q h = cc
  listed_fine (ok (u ∷ v ∷ us)) q h = (u, v, us, q, ranged_fine u (u ∷ v ∷ us) _ h)

  pub probe_uid_behavior-IsRanged : IsFine (probe_uid_behavior src acct folder) → IsRanged
  unfolding probe_uid_behavior
  probe_uid_behavior-IsRanged h = listed_fine _ refl h

  -- A message that is not seen, and not seen after its body was fetched.
  abbrev pub IsPreserved : ℕ → Type 0
  IsPreserved uid =
      (preview : Text) × (seen : ReadStateProbeResult) × (src.fetch_seen_state acct folder uid
        ≡ ok (true, false))
      × (src.fetch_body_preview_and_seen_state acct folder uid 1 ≡ ok (preview, seen))
      × (seen.observed ≡ true)
      × (seen.seen_before ≡ false)
      × (seen.seen_after ≡ false)

  fetch-IsFine :
      (uid : ℕ) (next : ProbeCheck) (r : Result SourceError (Text × ReadStateProbeResult))
      → src.fetch_seen_state acct folder uid ≡ ok (true, false)
      → src.fetch_body_preview_and_seen_state acct folder uid 1 ≡ r
      → IsFine (after_fetch src acct folder r next)
      → IsPreserved uid ⊎ IsFine next
  fetch-IsFine uid next (err e) s q h = cc
  fetch-IsFine uid next (ok (preview, seen)) s q h =
      elim (Bool-cases (seen.observed && not seen.seen_before)) [
        | inr e ↦ inr (rw e at h)
        | inl e ↦ elim (Bool-cases seen.seen_after) [
          | inl a ↦ cc (rw (e, a) at h)
          | inr a ↦ inl (preview, seen, s, q, ground arith, ground arith, a)
        ]
      ]

  seen-IsFine :
      (uid : ℕ) (next : ProbeCheck) (r : Result SourceError (Bool × Bool))
      → src.fetch_seen_state acct folder uid ≡ r
      → IsFine (after_seen_state src acct folder uid r next)
      → IsPreserved uid ⊎ IsFine next
  seen-IsFine uid next (err e) q h = cc
  seen-IsFine uid next (ok (true, false)) q h = fetch-IsFine uid next _ q refl h
  seen-IsFine uid next (ok (true, true)) q h = inr h
  seen-IsFine uid next (ok (false, seen)) q h = inr h

  pub scan_uids-IsPreserved :
      (uids : List ℕ)
      → IsFine (scan_uids src acct folder uids)
      → (uid : ℕ) × In uid uids × IsPreserved uid
  unfolding scan_uids
  scan_uids-IsPreserved [] h = cc
  scan_uids-IsPreserved (uid ∷ uids) h =
      elim (seen-IsFine uid (scan_uids src acct folder uids) _ refl h) [
        | inl k ↦ (uid, inl refl, k)
        | inr f ↦ let (found, i, k) = scan_uids-IsPreserved uids f in (found, inr i, k)
      ]

-- A text that is not blank.
abbrev pub is_blank : Text → Bool
is_blank t = is_empty (trim_space t)

module _ (p : Platform) (src : Source) (acct : Account) (folder : Text) where
  -- In the folder the search for the domain finds a message, and that for the negative value none.
  abbrev pub IsSearched : Text → Text → Text → Type 0
  IsSearched target domain header =
      (u : ℕ) × (us : List ℕ) × (src.search_allowed acct target header domain everything
        ≡ ok (u ∷ us))
      × (src.search_allowed acct target header probe_negative_value everything ≡ ok [])

  -- The same in the folder probed, and for Bcc in the one for sent mail.
  abbrev pub IsFound : Text → Text → Type 0
  IsFound domain header =
      ((same header (codes "Bcc") ≡ false) × IsSearched folder domain header)
      ⊎ ((same header (codes "Bcc") ≡ true)
          × (is_empty (sent_folder p acct.folders) ≡ false)
          × IsSearched (sent_folder p acct.folders) domain header)

  negative_found :
      (domain header target : Text) (g g' : Progress) (uids : List ℕ)
      (r : Result SourceError (List ℕ))
      → src.search_allowed acct target header domain everything ≡ ok uids
      → src.search_allowed acct target header probe_negative_value everything ≡ r
      → after_negative p src acct domain header target g uids r ≡ ok g'
      → g'.missing_fixture ≡ false
      → (g.missing_fixture ≡ false) × IsSearched target domain header
  negative_found domain header target g g' uids (err e) q n h m = cc
  negative_found domain header target g g' uids (ok (u ∷ us)) q n h m = cc
  negative_found domain header target g g' [] (ok []) q n h m =
      absurd (missed (ap (λ (x : Progress). x.missing_fixture) (ok_injective h) ∙ m))
    where
      missed : (g.missing_fixture || true) ≡ false → ⊥
      missed e = ground arith
  negative_found domain header target g g' (u ∷ us) (ok []) q n h m =
      (kept (ap (λ (x : Progress). x.missing_fixture) (ok_injective h) ∙ m), (u, us, q, n))
    where
      kept : (g.missing_fixture || false) ≡ false → g.missing_fixture ≡ false
      kept e = ground arith

  search_found :
      (domain header target : Text) (g g' : Progress) (r : Result SourceError (List ℕ))
      → src.search_allowed acct target header domain everything ≡ r
      → after_search p src acct domain header target g r ≡ ok g'
      → g'.missing_fixture ≡ false
      → (g.missing_fixture ≡ false) × IsSearched target domain header
  search_found domain header target g g' (err e) q h m = cc
  search_found domain header target g g' (ok uids) q h m =
      negative_found domain header target g g' uids _ q refl h m

  header-IsFound :
      (domain header : Text) (g g' : Progress)
      → probe_header p src acct folder domain header g ≡ ok g'
      → g'.missing_fixture ≡ false
      → (g.missing_fixture ≡ false) × IsFound domain header
  unfolding probe_header
  header-IsFound domain header g g' h m = elim (Bool-cases (same header (codes "Bcc"))) [
    | inr other ↦
        let (k, found) = search_found domain header folder g g' _ refl (rw other at h) m in
        (k, inl (other, found))
    | inl bcc ↦ elim (Bool-cases (is_empty (sent_folder p acct.folders))) [
      | inl nowhere ↦ absurd (
          missed
            (ap (λ (x : Progress). x.missing_fixture) (ok_injective (rw (bcc, nowhere) at h)) ∙ m))
      | inr sent ↦
          let (k, found) =
            search_found domain header (sent_folder p acct.folders) g g' _ refl
              (rw (bcc, sent) at h) m in
          (k, inr (bcc, sent, found))
    ]
  ]
    where
      missed : true ≡ false → ⊥
      missed e = cc

  headers-IsFound :
      (domain : Text) (hs : List Text) (g g' : Progress)
      → probe_headers p src acct folder domain hs g ≡ ok g'
      → g'.missing_fixture ≡ false
      → (g.missing_fixture ≡ false) × All (IsFound domain) hs
  unfolding probe_headers
  headers-IsFound domain [] g g' h m =
      (ap (λ (x : Progress). x.missing_fixture) (ok_injective h) ∙ m, tt)
  headers-IsFound domain (x ∷ xs) g g' h m =
      let (mid, first, rest) = >>=-ok (probe_header p src acct folder domain x g) _ h in
      let (k, found) = headers-IsFound domain xs mid g' rest m in
      let (start, this) = header-IsFound domain x g mid first k in (start, (this, found))

  -- Every domain that is not blank is found in every header.
  abbrev pub AllFound : List Text → Type 0
  AllFound domains = All (λ d. (is_blank d ≡ true) ⊎ All (IsFound (trim_space d)) headers) domains

  domain-IsFound :
      (d : Text) (g g' : Progress)
      → (if is_blank d
          then ok g
          else probe_headers p src acct folder
              (trim_space d)
              headers
              (record g { checked_domain = true }))
        ≡ ok g'
      → g'.missing_fixture ≡ false
      → (g.missing_fixture ≡ false) × ((is_blank d ≡ true) ⊎ All (IsFound (trim_space d)) headers)
  domain-IsFound d g g' h m = elim (Bool-cases (is_blank d)) [
    | inl blank ↦
        (ap (λ (x : Progress). x.missing_fixture) (ok_injective (rw blank at h)) ∙ m, inl blank)
    | inr full ↦
        let (k, found) =
          headers-IsFound (trim_space d) headers (record g { checked_domain = true }) g'
            (rw full at h) m in
        (k, inr found)
  ]

  pub domains_found :
      (ds : List Text) (g g' : Progress)
      → probe_domains p src acct folder ds g ≡ ok g'
      → g'.missing_fixture ≡ false
      → (g.missing_fixture ≡ false) × AllFound ds
  unfolding probe_domains
  domains_found [] g g' h m = (ap (λ (x : Progress). x.missing_fixture) (ok_injective h) ∙ m, tt)
  domains_found (d ∷ ds) g g' h m =
      let (mid, first, rest) = >>=-ok {E = HeaderResult} {A = Progress} _ _ h in
      let (k, found) = domains_found ds mid g' rest m in
      let (start, this) = domain-IsFound d g mid first k in (start, (this, found))

  abbrev pub has_domain : List Text → Bool
  has_domain ds = any (λ d. not (is_blank d)) ds

  -- Blank domains leave no trace.
  pub probe_domains_blank :
      (ds : List Text) (g : Progress)
      → has_domain ds ≡ false
      → probe_domains p src acct folder ds g ≡ ok g
  unfolding probe_domains
  probe_domains_blank [] g h = refl
  probe_domains_blank (d ∷ ds) g h = elim (Bool-cases (is_blank d)) [
    | inl blank ↦ rw blank (probe_domains_blank ds g (ground arith))
    | inr full ↦ ground arith
  ]
