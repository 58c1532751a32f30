-- ===== src/Settings.antt =====
-- internal/config/config.go: the rules for a decoded configuration, and the lifetime of a cached
-- message. Decoding TOML is left out. The texts of the errors are too: a problem is named by what it is
-- about.
pub mod Valid
pub mod Digits
use ksuite_mail.Common.{
  ℕ, zero, suc, ◌+◌, ◌-◌, ◌*◌, ◌%◌, ◌^◌, Bool, true, false, not, ◌&&◌, ◌||◌, Option, none, some,
  List, [], ◌∷◌, ◌++◌, Result, ok, err, ltb, leb, ◌==◌, if◌then◌else◌, Text, codes, same,
  contains_text,
}
use ksuite_mail.Common.Ints.{ℤ, pos, negsuc, positive, negative, pos_part}
use ksuite_mail.Strings.{trim_space, is_empty}
use ksuite_mail.Mail.{Account, Config, PasswordRef, policy_full, policy_domain}

pub data TtlError : Type 0 where
  empty_ttl unknown_unit bad_quantity negative_ttl : TtlError

-- The nanoseconds of a unit.
abbrev pub seconds : ℕ → ℕ
seconds n = n * 1_000_000_000

unfoldable pub unit_of : ℕ → Option ℕ
unit_of unit =
    if unit == b's'
    then some (seconds 1)
    else if unit == b'm'
    then some (seconds 60)
    else if unit == b'h'
    then some (seconds 3_600)
    else if unit == b'd'
    then some (seconds 86_400)
    else if unit == b'w'
    then some (seconds 604_800)
    else none

-- s[:len(s)-1] and s[len(s)-1], for a text that is not empty. A last rune of several bytes is no
-- unit, as its last byte is none.
unfoldable pub unsnoc : Text → Option (Text × ℕ)
unsnoc [] = none
unsnoc (r ∷ rs) = elim (unsnoc rs) [ none ↦ some ([], r) | some last ↦ some (r ∷ last.0, last.1) ]

abbrev pub is_digit : ℕ → Bool
is_digit r = leb b'0' r && leb r b'9'

-- The number that the digits after `n` make.
unfoldable pub digits_from : ℕ → Text → Option ℕ
digits_from n [] = some n
digits_from n (r ∷ rs) = if is_digit r then digits_from (n * 10 + (r - b'0')) rs else none

abbrev pub minus : ℕ → ℤ
minus zero = pos 0
minus (suc n) = negsuc n

abbrev pub in_range : Bool → Option ℕ → Option ℤ
in_range below none = none
in_range true (some n) = if leb n (2 ^ 63) then some (minus n) else none
in_range false (some n) = if ltb n (2 ^ 63) then some (pos n) else none

unfoldable pub unsigned : Text → Option ℕ
unfolding digits_from
unsigned rs = if is_empty rs then none else digits_from 0 rs

-- strconv.Atoi, for an int of 64 bits
unfoldable pub atoi : Text → Option ℤ
unfolding unsigned
atoi [] = none
atoi (r ∷ rs) =
    if r == b'-'
    then in_range true (unsigned rs)
    else if r == b'+'
    then in_range false (unsigned rs)
    else in_range false (unsigned (r ∷ rs))

-- The int64 that a product wraps to.
unfoldable pub to_int64 : ℕ → ℤ
to_int64 n = let m = n % 2 ^ 64 in if ltb m (2 ^ 63) then pos m else negsuc (2 ^ 64 - 1 - m)

abbrev pub duration : ℕ → Option ℤ → Result TtlError ℤ
duration mult none = err bad_quantity
duration mult (some n) = if negative n then err negative_ttl else ok (to_int64 (pos_part n * mult))

abbrev pub quantity : Text → Option ℕ → Result TtlError ℤ
quantity num none = err unknown_unit
quantity num (some mult) = duration mult (atoi num)

abbrev pub parse_parts : Option (Text × ℕ) → Result TtlError ℤ
parse_parts none = err empty_ttl
parse_parts (some (num, unit)) = quantity num (unit_of unit)

-- ParseTTL, in nanoseconds
unfoldable pub parse_ttl : Text → Result TtlError ℤ
unfolding atoi unit_of unsnoc trim_space to_int64
parse_ttl s = parse_parts (unsnoc (trim_space s))

pub data Problem : Type 0 where
  bad_ttl : TtlError → Problem
  negative_limit : Problem
  -- The index of the account, and what is wrong with it.
  missing_id duplicate_id missing_email missing_host bad_port missing_username missing_tls :
      ℕ → Problem
  missing_password_id bad_password_source bad_password_provider : ℕ → Problem
  missing_domains missing_policy bad_policy missing_folders : ℕ → Problem
  empty_domain : ℕ → ℕ → Problem

abbrev pub unless : Bool → Problem → List Problem
unless good problem = if good then [] else problem ∷ []

abbrev pub ttl_problems : Result TtlError ℤ → List Problem
ttl_problems (ok ttl) = []
ttl_problems (err e) = bad_ttl e ∷ []

unfoldable pub domain_problems : ℕ → ℕ → List Text → List Problem
domain_problems i j [] = []
domain_problems i j (domain ∷ domains) =
    unless (not (is_empty (trim_space domain))) (empty_domain i j)
    ++ domain_problems i (suc j) domains

unfoldable pub policy_problems : ℕ → Account → List Problem
unfolding domain_problems
policy_problems i a =
    if same a.policy policy_full
    then []
    else if same a.policy policy_domain
    then unless (not (is_empty a.domains)) (missing_domains i) ++ domain_problems i 0 a.domains
    else if is_empty a.policy
    then missing_policy i ∷ []
    else bad_policy i ∷ []

unfoldable pub id_problems : ℕ → List Text → Text → List Problem
id_problems i seen id =
    if is_empty id then missing_id i ∷ [] else unless (not (contains_text id seen)) (duplicate_id i)

abbrev pub is_port : ℤ → Bool
is_port port = positive port && leb (pos_part port) 65_535

abbrev pub has_tls : Option Bool → Bool
has_tls none = false
has_tls (some tls) = true

unfoldable pub field_problems : ℕ → Account → List Problem
field_problems i a =
    unless (not (is_empty a.email)) (missing_email i)
    ++ unless (not (is_empty a.host)) (missing_host i)
    ++ unless (is_port a.port) (bad_port i)
    ++ unless (not (is_empty a.username)) (missing_username i)
    ++ unless (has_tls a.tls) (missing_tls i)
    ++ unless (not (is_empty a.password_ref.id)) (missing_password_id i)
    ++ unless (same a.password_ref.source (codes "file")) (bad_password_source i)
    ++ unless (same a.password_ref.provider (codes "local")) (bad_password_provider i)

-- The loop over the accounts; an id that is not empty joins `seen`, whether it was there or not.
unfoldable pub account_problems : ℕ → List Text → List Account → List Problem
unfolding id_problems field_problems policy_problems
account_problems i seen [] = []
account_problems i seen (a ∷ accounts) =
    id_problems i seen a.id
    ++ field_problems i a
    ++ policy_problems i a
    ++ unless (not (is_empty a.folders)) (missing_folders i)
    ++ account_problems (suc i) (if is_empty a.id then seen else a.id ∷ seen) accounts

-- Validate, with all the problems that it joins.
unfoldable pub validate : Config → List Problem
unfolding account_problems parse_ttl
validate c =
    (if is_empty c.cache_ttl then [] else ttl_problems (parse_ttl c.cache_ttl))
    ++ unless (not (negative c.default_limit)) negative_limit
    ++ account_problems 0 [] c.accounts
