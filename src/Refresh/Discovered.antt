-- ===== src/Refresh/Discovered.antt =====
-- internal/refresh/refresh.go: the number of candidates of discoverCandidates, and their bounds.
use ksuite_mail.Common.{
  ℕ, ◌+◌, ◌-◌, ◌≤◌, ◌<◌, ◌≡◌, ◌≢◌, refl, subst, Bool, true, false, not, ◌&&◌, ◌||◌, inl, inr,
  Bool-cases, none, List, [], ◌∷◌, Result, ok, err, ◌>>=◌, arith, ltb, length, length-drop, Text,
  same, ok_injective,
}
use ksuite_mail.Strings.{Platform, is_empty}
use ksuite_mail.Mail.{Account, UidRange, policy_domain}
use ksuite_mail.Refresh.Source.{Source, SourceError}
use ksuite_mail.Refresh.Uids.{CandidateDiscovery, uid_bounds, dedupe_uids, observed_scope_bounds}
use ksuite_mail.Refresh.Discover.{
  scope_of, capped, discover_candidates, search_headers, address_headers,
}

-- At most `max_candidates` UIDs, where that is not 0; and bounds wherever refreshFolder asks for them.
pub record IsDiscovery (max_candidates : ℕ) (d : CandidateDiscovery) : Type 0 where
  pub sized : 0 < max_candidates → length d.uids ≤ max_candidates
  pub bounded :
      d.complete ≡ false
      → (not (is_empty d.uids) || d.use_scope_bounds) ≡ true
      → observed_scope_bounds d d.uids ≢ none

uid_bounds_some : (uids : List ℕ) → not (is_empty uids) ≡ true → uid_bounds uids ≢ none
unfolding uid_bounds
uid_bounds_some [] h = cc
uid_bounds_some (u ∷ us) h = λ e. cc

-- Without bounds of the scope, those of the UIDs stand.
by_uids :
    (d : CandidateDiscovery)
    → d.use_scope_bounds ≡ false
    → (not (is_empty d.uids) || d.use_scope_bounds) ≡ true
    → observed_scope_bounds d d.uids ≢ none
unfolding observed_scope_bounds
by_uids d no_scope h = rw no_scope (uid_bounds_some d.uids (ground arith))

by_scope :
    (d : CandidateDiscovery)
    → d.use_scope_bounds ≡ true
    → ltb 0 d.scope.min ≡ true
    → ltb 0 d.scope.max ≡ true
    → observed_scope_bounds d d.uids ≢ none
unfolding observed_scope_bounds
by_scope d scoped lo hi = rw (scoped, lo, hi) (λ e. cc)

abbrev narrow : ℕ → ℕ → UidRange × Bool
narrow uid_next max_candidates = (record { min = uid_next - max_candidates; max = uid_next }, false)

capped-sized :
    (scoped : UidRange × Bool) (max_candidates : ℕ) (uids : List ℕ)
    → 0 < max_candidates
    → length (capped max_candidates scoped uids).uids ≤ max_candidates
capped-sized scoped max_candidates uids h =
    elim (Bool-cases (ltb 0 max_candidates && ltb max_candidates (length uids))) [
      | inl many ↦ rw many (omega (arith, length-drop (length uids - max_candidates) uids))
      | inr few ↦ rw few (ground arith)
    ]

capped-narrow :
    (uid_next max_candidates : ℕ) (uids : List ℕ)
    → max_candidates + 1 < uid_next
    → let d = capped max_candidates (narrow uid_next max_candidates) uids in
      observed_scope_bounds d d.uids ≢ none
capped-narrow uid_next max_candidates uids h =
    elim (Bool-cases (ltb 0 max_candidates && ltb max_candidates (length uids))) [
      | inl many ↦ rw many (by_scope _ refl (ground arith) (ground arith))
      | inr few ↦ rw few (by_scope _ refl (ground arith) (ground arith))
    ]

capped_whole :
    (scope : UidRange) (max_candidates : ℕ) (uids : List ℕ)
    → let d = capped max_candidates (scope, true) uids in
      (not (is_empty d.uids) || d.use_scope_bounds) ≡ true → observed_scope_bounds d d.uids ≢ none
capped_whole scope max_candidates uids =
    elim (Bool-cases (ltb 0 max_candidates && ltb max_candidates (length uids))) [
      | inl many ↦ rw many (by_uids _ refl)
      | inr few ↦ rw few (by_uids _ refl)
    ]

capped-IsDiscovery :
    (uid_next max_candidates : ℕ) (uids : List ℕ)
    → IsDiscovery max_candidates (capped max_candidates (scope_of uid_next max_candidates) uids)
capped-IsDiscovery uid_next max_candidates uids = record {
  sized = capped-sized (scope_of uid_next max_candidates) max_candidates uids;
  bounded = elim (Bool-cases (ltb 0 max_candidates && ltb (max_candidates + 1) uid_next)) [
    | inl cut ↦ rw cut (λ c h. capped-narrow uid_next max_candidates uids (ground arith))
    | inr whole ↦ rw whole (λ c h. capped_whole _ max_candidates uids h)
  ];
}

-- Of discoverCandidates that succeeds, with any source: no more candidates than the maximum, where it is
-- positive; and when refreshFolder takes the bounds of an incomplete discovery, there are some, so that
-- uidBounds is not called without UIDs and does not panic.
pub discover_candidates-IsDiscovery :
    (p : Platform) (src : Source) (account : Account) (folder : Text) (uid_next max_candidates : ℕ)
    (d : CandidateDiscovery)
    → discover_candidates p src account folder uid_next max_candidates ≡ ok d
    → IsDiscovery max_candidates d
unfolding discover_candidates
discover_candidates-IsDiscovery p src account folder uid_next max_candidates d h =
    elim (Bool-cases (same account.policy policy_domain)) [
      | inl domain ↦
          searched
            (search_headers p src account folder (scope_of uid_next max_candidates).0
              address_headers account.domains)
            (rw domain at h)
      | inr full ↦
          listed (src.list_uids account folder (scope_of uid_next max_candidates).0) (rw full at h)
    ]
  where
    listed :
        (res : Result SourceError (List ℕ))
        → (res >>= λ uids. ok (capped max_candidates (scope_of uid_next max_candidates) uids))
          ≡ ok d
        → IsDiscovery max_candidates d
    listed (ok uids) e =
        subst (IsDiscovery max_candidates) (ok_injective e)
          (capped-IsDiscovery uid_next max_candidates uids)
    listed (err x) e = cc

    searched :
        (res : Result SourceError (List ℕ))
        → (res >>= λ found.
            ok (capped max_candidates (scope_of uid_next max_candidates) (dedupe_uids found)))
          ≡ ok d
        → IsDiscovery max_candidates d
    searched (ok found) e =
        subst (IsDiscovery max_candidates) (ok_injective e)
          (capped-IsDiscovery uid_next max_candidates (dedupe_uids found))
    searched (err x) e = cc
