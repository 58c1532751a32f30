-- ===== src/Policy/Exact.antt =====
-- internal/policy/domain.go: DomainMatch against a description of the policy with no loop in it.
use ksuite_mail.Common.{
  ◌≡◌, refl, sym, ap, subst, ◌∙◌, ◌≢◌, ◌⊎◌, inl, inr, Bool, true, false, List, [], ◌∷◌, ◌++◌, arith,
  Bool-cases, In, Text, codes, same, same_iff, contains_text,
}
use mathlib.Core.List.{append-nil}
use ksuite_mail.Strings.{Platform, trim_space, to_lower, is_empty}
use ksuite_mail.Mail.{Account, MessageEnvelope, policy_domain}
use ksuite_mail.Policy.{
  split_addresses, normalize, match_key, match_addresses, exact_match, header_matches, domain_rule,
  domain_match,
}

-- One of the addresses of a header value has the domain `key`, and `key` is a configured domain,
-- with the case and the blanks around both left aside.
abbrev pub MatchesBy : Platform → Account → Text → Text → Type 0
MatchesBy p acct value key =
    (address : Text) × In address (split_addresses p value)
    × (match_key p address ≡ key)
    × (key ≢ [])
    × (domain : Text) × In domain acct.domains
    × (to_lower p (trim_space domain) ≡ key)

abbrev pub Matches : Platform → Account → Text → Type 0
Matches p acct value = (key : Text) × MatchesBy p acct value key

-- What the search for a match among addresses returns.
abbrev Found : Platform → List Text → List Text → Text → Type 0
Found p xs allowed d =
    (a : Text) × In a xs
    × (match_key p a ≢ [])
    × (contains_text d allowed ≡ true)
    × (match_key p a ≡ d)

module _ (p : Platform) where
  contains-normalize :
      (k : Text) (ds : List Text)
      → contains_text k (normalize p ds) ≡ true
      → (d : Text) × In d ds × (to_lower p (trim_space d) ≡ k)
  unfolding contains_text normalize
  contains-normalize k [] h = cc
  contains-normalize k (d ∷ ds) h = elim (Bool-cases (same (to_lower p (trim_space d)) k)) [
    | inl e ↦ (d, inl refl, (same_iff _ k).0 e)
    | inr e ↦ let (d', i, q) = contains-normalize k ds (rw e at h) in (d', inr i, q)
  ]

  normalize-contains :
      (k d : Text) (ds : List Text)
      → In d ds
      → to_lower p (trim_space d) ≡ k
      → contains_text k (normalize p ds) ≡ true
  unfolding contains_text normalize
  normalize-contains k d [] i e = absurd i
  normalize-contains k d (x ∷ ds) (inl q) e =
      rw ((same_iff (to_lower p (trim_space x)) k).1 (ap (λ y. to_lower p (trim_space y)) q ∙ e))
  normalize-contains k d (x ∷ ds) (inr i) e = ground (arith, normalize-contains k d ds i e)

  is_empty-ne-nil : (t : Text) → is_empty t ≡ false → t ≢ []
  is_empty-ne-nil [] h e = cc
  is_empty-ne-nil (r ∷ rs) h e = cc

  ne-nil-is_empty : (t : Text) → t ≢ [] → is_empty t ≡ false
  ne-nil-is_empty [] h = absurd (h refl)
  ne-nil-is_empty (r ∷ rs) h = refl

  deeper :
      (x : Text) (xs allowed : List Text) (d : Text)
      → Found p xs allowed d
      → Found p (x ∷ xs) allowed d
  deeper x xs allowed d (a, i, n, c, e) = (a, inr i, n, c, e)

  match_addresses_sound :
      (xs allowed : List Text) (d : Text) (ds : List Text)
      → match_addresses p xs allowed ≡ d ∷ ds
      → Found p xs allowed d
  unfolding match_addresses
  match_addresses_sound [] allowed d ds h = cc
  match_addresses_sound (x ∷ xs) allowed d ds h = elim (Bool-cases (is_empty (match_key p x))) [
    | inl e ↦ deeper x xs allowed d (match_addresses_sound xs allowed d ds (rw e at h))
    | inr e ↦ elim (Bool-cases (contains_text (match_key p x) allowed)) [
      | inl c ↦
          let here : match_key p x ≡ d = ground arith in
          (
            x,
            inl refl,
            is_empty-ne-nil _ e,
            subst (λ k. contains_text k allowed ≡ true) here c,
            here,
          )
      | inr c ↦ deeper x xs allowed d (match_addresses_sound xs allowed d ds (rw (e, c) at h))
    ]
  ]

  match_addresses_complete :
      (xs allowed : List Text) (a : Text)
      → In a xs
      → match_key p a ≢ []
      → contains_text (match_key p a) allowed ≡ true
      → match_addresses p xs allowed ≢ []
  unfolding match_addresses
  match_addresses_complete [] allowed a i n c = absurd i
  match_addresses_complete (x ∷ xs) allowed a (inl q) n c = rw (q, ne-nil-is_empty _ n, c) (λ e. cc)
  match_addresses_complete (x ∷ xs) allowed a (inr i) n c =
      ground (arith, match_addresses_complete xs allowed a i n c)

-- A header value either yields no match, and has none, or yields one that it has.
abbrev HeaderCase : Platform → Account → Text → Type 0
HeaderCase p acct value =
    ((header_matches p acct value ≡ []) × ¬ Matches p acct value)
    ⊎ ((d : Text) × (ds : List Text) × (header_matches p acct value ≡ d ∷ ds)
        × MatchesBy p acct value d)

module _ (p : Platform) (acct : Account) where
  header_matches_lem :
      (value : Text)
      → header_matches p acct value
        ≡ match_addresses p (split_addresses p value) (normalize p acct.domains)
  unfolding exact_match
  header_matches_lem value = append-nil _

  header-case : (value : Text) → HeaderCase p acct value
  header-case value = go (header_matches p acct value) refl
    where
      allowed : List Text
      allowed = normalize p acct.domains

      go : (ms : List Text) → header_matches p acct value ≡ ms → HeaderCase p acct value
      go [] e = inl (
        e,
        λ m.
            let (key, by) = m in
            let (a, i, q, n, d, j, r) = by in
            match_addresses_complete p (split_addresses p value) allowed a i (λ z. n (sym q ∙ z))
              (normalize-contains p (match_key p a) d acct.domains j (r ∙ sym q))
              (sym (header_matches_lem value) ∙ e),
      )
      go (d ∷ ds) e =
          let (a, i, n, c, q) =
            match_addresses_sound p (split_addresses p value) allowed d ds
              (sym (header_matches_lem value) ∙ e) in
          let (x, j, r) = contains-normalize p d acct.domains c in
          inr (d, ds, e, (a, i, q, (λ z. n (q ∙ z)), x, j, r))

-- The result of DomainMatch by the first of the four headers that matches.
pub data Verdict (p : Platform) (acct : Account) (env : MessageEnvelope)
    : Bool × Text → Type 0 where
  by_from :
      (key : Text) → MatchesBy p acct env.from key → Verdict p acct env (true, codes "from:" ++ key)
  by_to :
      (key : Text)
      → ¬ Matches p acct env.from
      → MatchesBy p acct env.to key
      → Verdict p acct env (true, codes "to:" ++ key)
  by_cc :
      (key : Text)
      → ¬ Matches p acct env.from
      → ¬ Matches p acct env.to
      → MatchesBy p acct env.cc key
      → Verdict p acct env (true, codes "cc:" ++ key)
  by_bcc :
      (key : Text)
      → ¬ Matches p acct env.from
      → ¬ Matches p acct env.to
      → ¬ Matches p acct env.cc
      → MatchesBy p acct env.bcc key
      → Verdict p acct env (true, codes "bcc:" ++ key)
  by_none :
      ¬ Matches p acct env.from
      → ¬ Matches p acct env.to
      → ¬ Matches p acct env.cc
      → ¬ Matches p acct env.bcc
      → Verdict p acct env (false, [])

module _ (p : Platform) (acct : Account) (env : MessageEnvelope) where
  domain_rule-Verdict : Verdict p acct env (domain_rule p acct env)
  unfolding domain_rule
  domain_rule-Verdict = elim (header-case p acct env.from) [
    | inr (d, ds, e, m) ↦ rw e (by_from d m)
    | inl (e, n₁) ↦ elim (header-case p acct env.to) [
      | inr (d, ds, f, m) ↦ rw (e, f) (by_to d n₁ m)
      | inl (f, n₂) ↦ elim (header-case p acct env.cc) [
        | inr (d, ds, g, m) ↦ rw (e, f, g) (by_cc d n₁ n₂ m)
        | inl (g, n₃) ↦ elim (header-case p acct env.bcc) [
          | inr (d, ds, h, m) ↦ rw (e, f, g, h) (by_bcc d n₁ n₂ n₃ m)
          | inl (h, n₄) ↦ rw (e, f, g, h) (by_none n₁ n₂ n₃ n₄)
        ]
      ]
    ]
  ]

  -- For an account with the domain policy, the verdict of DomainMatch is that of the first header,
  -- in the order From, To, Cc, Bcc, with an address whose domain is configured, and names that
  -- header and that domain; it refuses the message exactly where no header has one.
  pub domain_match-Verdict :
      same acct.policy policy_domain ≡ true → Verdict p acct env (domain_match p acct env)
  unfolding domain_match
  domain_match-Verdict h = rw h domain_rule-Verdict
