-- ===== src/Daemon/Permitted.antt =====
-- internal/daemon/daemon.go: what cachedMessageAllowed lets pass, by the configuration and the policy.
use ksuite_mail.Common.{
  ◌≡◌, refl, sym, ◌∙◌, ap, ◌⊎◌, inl, inr, Bool, true, false, Bool-cases, Option, none, some, List,
  [], ◌∷◌, In, any, Text, same, same→eq,
}
use ksuite_mail.Strings.{Platform}
use ksuite_mail.Mail.{Account, Config, CachedMessage, policy_domain}
use ksuite_mail.Policy.Exact.{
  Matches, Verdict, by_from, by_to, by_cc, by_bcc, by_none, domain_match-Verdict,
}
use ksuite_mail.Daemon.Access.{
  find_account, account_by_id, account_allows_folder, cached_envelope, allowed_for,
  cached_message_allowed_for_account, cached_message_allowed,
}

-- An address of one of the four headers has a configured domain.
abbrev pub IsOfDomain : Platform → Account → CachedMessage → Type 0
IsOfDomain p acct m =
    Matches p acct m.from ⊎ (Matches p acct m.to ⊎ (Matches p acct m.cc ⊎ Matches p acct m.bcc))

-- The message is in a configured folder of its account, which has no domain policy, or to which the
-- message is by a configured domain.
abbrev pub IsPermitted : Platform → Config → CachedMessage → Type 0
IsPermitted p cfg m =
    (acct : Account) × In acct cfg.accounts
    × (acct.id ≡ m.account_id)
    × In m.folder acct.folders
    × ((same acct.policy policy_domain ≡ false) ⊎ IsOfDomain p acct m)

find_account-In :
    (accounts : List Account) (id : Text) (acct : Account)
    → find_account accounts id ≡ some acct
    → In acct accounts × (acct.id ≡ id)
unfolding find_account
find_account-In [] id acct h = cc
find_account-In (a ∷ rest) id acct h = elim (Bool-cases (same a.id id)) [
  | inl e ↦
      let q : a ≡ acct = some_injective (rw e at h) in
      (inl q, ap (λ (x : Account). x.id) (sym q) ∙ same→eq a.id id e)
  | inr e ↦ let (i, q) = find_account-In rest id acct (rw e at h) in (inr i, q)
]
  where
    some_injective : {A : Type 0} {x y : A} → some x ≡ some y → x ≡ y
    some_injective e = cc

any-In :
    (folder : Text) (folders : List Text)
    → any (λ f. same f folder) folders ≡ true
    → In folder folders
any-In folder [] h = cc
any-In folder (f ∷ fs) h = elim (Bool-cases (same f folder)) [
  | inl e ↦ inl (same→eq f folder e)
  | inr e ↦ inr (any-In folder fs (rw e at h))
]

module _ (p : Platform) where
  Verdict-IsOfDomain :
      (acct : Account) (m : CachedMessage) (v : Bool × Text)
      → Verdict p acct (cached_envelope m) v
      → v.0 ≡ true
      → IsOfDomain p acct m
  Verdict-IsOfDomain acct m v (by_from key k) h = inl (key, k)
  Verdict-IsOfDomain acct m v (by_to key n k) h = inr (inl (key, k))
  Verdict-IsOfDomain acct m v (by_cc key n n' k) h = inr (inr (inl (key, k)))
  Verdict-IsOfDomain acct m v (by_bcc key n n' n'' k) h = inr (inr (inr (key, k)))
  Verdict-IsOfDomain acct m v (by_none n n' n'' n''') h = cc

  for_account :
      (acct : Account) (m : CachedMessage)
      → cached_message_allowed_for_account p acct m ≡ true
      → In m.folder acct.folders × ((same acct.policy policy_domain ≡ false) ⊎ IsOfDomain p acct m)
  unfolding cached_message_allowed_for_account
  for_account acct m h = elim (Bool-cases (account_allows_folder acct m.folder)) [
    | inr e ↦ cc (rw e at h)
    | inl e ↦ elim (Bool-cases (same acct.policy policy_domain)) [
      | inr full ↦ (any-In m.folder acct.folders e, inl full)
      | inl domain ↦ (
        any-In m.folder acct.folders e,
        inr (
            Verdict-IsOfDomain acct m _ (domain_match-Verdict p acct (cached_envelope m) domain)
              (rw (e, domain) at h)),
      )
    ]
  ]

  pub cached_message_allowed-IsPermitted :
      (cfg : Config) (m : CachedMessage)
      → cached_message_allowed p cfg m ≡ true
      → IsPermitted p cfg m
  unfolding cached_message_allowed
  cached_message_allowed-IsPermitted cfg m h =
      go (account_by_id cfg m.account_id) (find_account-In cfg.accounts m.account_id) h
    where
      go :
          (found : Option Account)
          → ((acct : Account) → found ≡ some acct → In acct cfg.accounts × (acct.id ≡ m.account_id))
          → allowed_for p m found ≡ true
          → IsPermitted p cfg m
      go none i h' = cc
      go (some acct) i h' =
          let (member, named) = i acct refl in
          let (inside, policy) = for_account acct m h' in (acct, member, named, inside, policy)
