-- ===== src/Probe/Window.antt =====
-- internal/providerprobe/imap.go: which messages the read-state probe touches.
use ksuite_mail.Common.{
  ℕ, zero, suc, ◌+◌, ◌-◌, ◌≤◌, ◌<◌, ◌≡◌, refl, ap, sym, ◌∙◌, ◌⊎◌, inl, inr, Bool, true, false, ◌||◌,
  Bool-cases, List, [], ◌∷◌, ◌++◌, ok, ok_injective, Text, same, arith, In, length, drop, retain,
  ltb, length-drop, ◌==◌, ==_iff, All, subst,
}
use ksuite_mail.Strings.{trim_space}
use ksuite_mail.Mail.{Account, RemoteFolderState, UidRange, policy_domain}
use ksuite_mail.Cache.Writes.{has_uid}
use ksuite_mail.Refresh.Source.{Source}
use ksuite_mail.Refresh.Deduped.{dedupe_uids-Ascending}
use ksuite_mail.Strings.{Platform}
use ksuite_mail.Probe.Strategy.{everything}
use ksuite_mail.Probe.Headers.{Evidence, headers, probe_domain_headers}
use ksuite_mail.Probe.Searched.{IsSearched, probe_domain_headers-IsSearched}
use ksuite_mail.Probe.ReadState.{
  read_state_fixture_uids, read_state_fixture_scope, evidence_uids, uid_in_range, last_uids,
  scan_limit,
}

split_or : (a b : Bool) → (a || b) ≡ true → (a ≡ true) ⊎ (b ≡ true)
split_or true b h = inl refl
split_or false b h = inr h

has_uid-append :
    (us vs : List ℕ) (w : ℕ)
    → has_uid (us ++ vs) w ≡ true
    → (has_uid us w ≡ true) ⊎ (has_uid vs w ≡ true)
has_uid-append [] vs w h = inr h
has_uid-append (u ∷ us) vs w h = ground (arith, has_uid-append us vs w)

has_uid-retain :
    (f : ℕ → Bool) (us : List ℕ) (w : ℕ)
    → has_uid (retain f us) w ≡ true
    → (f w ≡ true) × (has_uid us w ≡ true)
has_uid-retain f [] w h = cc
has_uid-retain f (u ∷ us) w h = elim (Bool-cases (f u)) [
  | inr e ↦ let (a, b) = has_uid-retain f us w (rw e at h) in (a, ground arith)
  | inl e ↦ elim (split_or (u == w) (has_uid (retain f us) w) (rw e at h)) [
    | inl here ↦ (ap f (sym ((==_iff u w).0 here)) ∙ e, ground arith)
    | inr there ↦ let (a, b) = has_uid-retain f us w there in (a, ground arith)
  ]
]

-- A piece of the evidence for the folder has the UID.
abbrev IsEvident : Text → List Evidence → ℕ → Type 0
IsEvident folder es uid =
    (e : Evidence) × In e es
    × (same (trim_space e.folder) (trim_space folder) ≡ true)
    × (has_uid e.uids uid ≡ true)

evidence_uids-IsEvident :
    (folder : Text) (scope : UidRange) (es : List Evidence) (uid : ℕ)
    → has_uid (evidence_uids folder scope es) uid ≡ true
    → (uid_in_range scope uid ≡ true) × IsEvident folder es uid
unfolding evidence_uids
evidence_uids-IsEvident folder scope [] uid h = cc
evidence_uids-IsEvident folder scope (e ∷ es) uid h =
    elim (Bool-cases (same (trim_space e.folder) (trim_space folder))) [
      | inr other ↦ later (evidence_uids-IsEvident folder scope es uid (rw other at h))
      | inl own ↦ elim (has_uid-append (retain (uid_in_range scope) e.uids) _ uid (rw own at h)) [
        | inl here ↦ let (a, b) = has_uid-retain _ e.uids uid here in (a, (e, inl refl, own, b))
        | inr there ↦ later (evidence_uids-IsEvident folder scope es uid there)
      ]
    ]
  where
    later :
        (uid_in_range scope uid ≡ true) × IsEvident folder es uid
        → (uid_in_range scope uid ≡ true) × IsEvident folder (e ∷ es) uid
    later (a, (f, i, o, b)) = (a, (f, inr i, o, b))

scope_bounds :
    (state : RemoteFolderState) (uid : ℕ)
    → 1 < state.uidnext
    → uid_in_range (read_state_fixture_scope state) uid ≡ true
    → (0 < uid) × (uid < state.uidnext) × (state.uidnext ≤ uid + scan_limit)
unfolding read_state_fixture_scope
scope_bounds state uid n h = ground arith

has_uid-drop : (n : ℕ) (us : List ℕ) (w : ℕ) → has_uid (drop n us) w ≡ true → has_uid us w ≡ true
has_uid-drop zero us w h = h
has_uid-drop (suc n) [] w h = h
has_uid-drop (suc n) (u ∷ us) w h = ground (arith, has_uid-drop n us w)

module _ (src : Source) (acct : Account) (folder : Text) where
  last_uids-length : (uids : List ℕ) → length (last_uids src acct folder uids) ≤ scan_limit
  last_uids-length uids = ground (arith, length-drop (length uids - scan_limit) uids)

  has_uid-last_uids :
      (uids : List ℕ) (w : ℕ)
      → has_uid (last_uids src acct folder uids) w ≡ true
      → has_uid uids w ≡ true
  has_uid-last_uids uids w h = elim (Bool-cases (ltb scan_limit (length uids))) [
    | inl long ↦ has_uid-drop _ uids w (rw long at h)
    | inr short ↦ rw short at h
  ]

  read_state_fixture_uids-IsEvident :
      (state : RemoteFolderState) (evidence : List Evidence) (uids : List ℕ)
      → same acct.policy policy_domain ≡ true
      → 1 < state.uidnext
      → read_state_fixture_uids src acct folder state evidence ≡ ok uids
      → (length (last_uids src acct folder uids) ≤ scan_limit)
        × ((uid : ℕ)
            → has_uid (last_uids src acct folder uids) uid ≡ true
            → ((0 < uid) × (uid < state.uidnext) × (state.uidnext ≤ uid + scan_limit))
              × IsEvident folder evidence uid)
  unfolding read_state_fixture_uids
  read_state_fixture_uids-IsEvident state evidence uids d n h =
      let scope = read_state_fixture_scope state in
      let found = evidence_uids folder scope evidence in
      let q = ok_injective (rw d at h) in
      (
        last_uids-length uids,
        λ uid i.
            let (inside, from) = evidence_uids-IsEvident folder scope evidence uid (
              sym ((dedupe_uids-Ascending found).1 uid)
              ∙ (ap (λ us. has_uid us uid) q ∙ has_uid-last_uids uids uid i)) in
            (scope_bounds state uid n inside, from),
      )

module _ (p : Platform) (src : Source) (acct : Account) (folder : Text) where
  -- The UID was found in the folder by a search for a configured domain in one of the four headers.
  abbrev pub IsFound : ℕ → Type 0
  IsFound uid =
      (target : Text) × (header : Text) × (domain : Text) × (uids : List ℕ) × (same
          (trim_space target) (trim_space folder)
        ≡ true)
      × In header headers
      × In domain acct.domains
      × (src.search_allowed acct target header (trim_space domain) everything ≡ ok uids)
      × (has_uid uids uid ≡ true)

  IsEvident-IsFound :
      (es : List Evidence) (uid : ℕ)
      → All (IsSearched p src acct) es
      → IsEvident folder es uid
      → IsFound uid
  IsEvident-IsFound [] uid a (e, i, o, b) = absurd i
  IsEvident-IsFound (x ∷ es) uid (s, a) (e, inr i, o, b) = IsEvident-IsFound es uid a (e, i, o, b)
  IsEvident-IsFound (x ∷ es) uid ((domain, d, q, j, r), a) (e, inl k, o, b) = (
    x.folder,
    x.header,
    domain,
    x.uids,
    subst (λ (y : Evidence). same (trim_space y.folder) (trim_space folder) ≡ true) (sym k) o,
    j,
    d,
    subst (λ t. src.search_allowed acct x.folder x.header t everything ≡ ok x.uids) q r,
    subst (λ (y : Evidence). has_uid y.uids uid ≡ true) (sym k) b,
  )

  -- Of an account with a domain policy and a folder that is not empty, the probe of the read state, on
  -- the evidence of the header searches, touches at most ten messages, each among the ten UIDs below
  -- UIDNEXT and found in this very folder, as trimmed, by a search for a configured domain in one of the
  -- four headers.
  pub read_state_fixture_uids-IsFound :
      (state : RemoteFolderState) (uids : List ℕ)
      → same acct.policy policy_domain ≡ true
      → 1 < state.uidnext
      → read_state_fixture_uids src acct folder state
          (probe_domain_headers p src acct folder).evidence
        ≡ ok uids
      → (length (last_uids src acct folder uids) ≤ scan_limit)
        × ((uid : ℕ)
            → has_uid (last_uids src acct folder uids) uid ≡ true
            → ((0 < uid) × (uid < state.uidnext) × (state.uidnext ≤ uid + scan_limit))
              × IsFound uid)
  read_state_fixture_uids-IsFound state uids d n h =
      let evidence = (probe_domain_headers p src acct folder).evidence in
      let (few, each) =
        read_state_fixture_uids-IsEvident src acct folder state evidence uids d n h in
      (
        few,
        λ uid i.
            let (inside, from) = each uid i in
            (
              inside,
              IsEvident-IsFound evidence uid (probe_domain_headers-IsSearched p src acct folder)
                  from,
            ),
      )
