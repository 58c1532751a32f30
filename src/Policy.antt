-- ===== src/Policy.antt =====
-- internal/policy/domain.go: which messages an account with the domain policy may see.
pub mod Exact
use ksuite_mail.Common.{
  ℕ, Bool, true, false, not, ◌||◌, Option, none, some, List, [], ◌∷◌, ◌++◌, map, ◌==◌,
  if◌then◌else◌, Text, codes, same, contains_text,
}
use ksuite_mail.Strings.{Platform, trim_space, to_lower, is_empty, fields_func, after_last}
use ksuite_mail.Mail.{Account, MessageEnvelope, policy_domain}

-- Trims each part and drops those that are empty then.
abbrev trimmed_parts : List Text → List Text
trimmed_parts [] = []
trimmed_parts (s ∷ ss) =
    let t = trim_space s in if is_empty t then trimmed_parts ss else t ∷ trimmed_parts ss

is_separator : ℕ → Bool
is_separator r = r == b',' || r == b';'

abbrev addresses_or_parts : Option (List Text) → Text → List Text
addresses_or_parts (some addrs) value = addrs
addresses_or_parts none value = trimmed_parts (fields_func is_separator value)

unfoldable pub split_addresses : Platform → Text → List Text
unfolding is_separator
split_addresses p [] = []
split_addresses p (r ∷ rs) = addresses_or_parts (p.parse_address_list (r ∷ rs)) (r ∷ rs)

unfoldable pub address_domain : Text → Text
address_domain value = elim (after_last b'@' value) [ none ↦ [] | some domain ↦ domain ]

unfoldable pub normalize : Platform → List Text → List Text
normalize p values = map (λ v. to_lower p (trim_space v)) values

-- The domain by which an address is compared.
abbrev pub match_key : Platform → Text → Text
match_key p address = to_lower p (trim_space (address_domain address))

unfoldable pub match_addresses : Platform → List Text → List Text → List Text
match_addresses p [] allowed = []
match_addresses p (address ∷ others) allowed =
    let d = match_key p address in
    let rest = match_addresses p others allowed in
    if is_empty d then rest else if contains_text d allowed then d ∷ rest else rest

unfoldable pub exact_match : Platform → List Text → List Text → List Text
exact_match p [] allowed = []
exact_match p (value ∷ values) allowed =
    match_addresses p (split_addresses p value) allowed ++ exact_match p values allowed

-- `for _, d := range matches { return true, label + d }`, and what stands below that loop.
abbrev pub first_match : Text → List Text → Bool × Text → Bool × Text
first_match label [] below = below
first_match label (d ∷ ds) below = (true, label ++ d)

abbrev pub header_matches : Platform → Account → Text → List Text
header_matches p acct value = exact_match p (value ∷ []) (normalize p acct.domains)

-- The whole of DomainMatch for an account with the domain policy.
unfoldable pub domain_rule : Platform → Account → MessageEnvelope → Bool × Text
domain_rule p acct env = first_match (codes "from:") (header_matches p acct env.from) (
    first_match (codes "to:") (header_matches p acct env.to) (
      first_match (codes "cc:") (header_matches p acct env.cc)
        (first_match (codes "bcc:") (header_matches p acct env.bcc) (false, []))))

unfoldable pub domain_match : Platform → Account → MessageEnvelope → Bool × Text
domain_match p acct env =
    if not (same acct.policy policy_domain)
    then (true, codes "policy_full")
    else domain_rule p acct env
