-- ===== src/Settings/Valid.antt =====
-- internal/config/config.go: what holds of a configuration that Validate accepts.
use ksuite_mail.Common.{
  ℕ, suc, ◌≤◌, ◌≡◌, ◌≢◌, refl, sym, subst, Bool, true, false, not, ◌⊎◌, inl, inr, Bool-cases,
  Option, none, some, List, [], ◌∷◌, ◌++◌, map, Result, ok, err, arith, if◌then◌else◌, All, In,
  Text, codes, same, same_iff, same_refl, contains_text,
}
use ksuite_mail.Common.Ints.{ℤ, pos, negsuc, negative}
use ksuite_mail.Strings.{trim_space, is_empty}
use ksuite_mail.Mail.{Account, Config, policy_full, policy_domain}
use ksuite_mail.Settings.{
  TtlError, parse_ttl, Problem, unless, ttl_problems, domain_problems, policy_problems, id_problems,
  is_port, has_tls, field_problems, account_problems, validate, missing_policy, bad_policy,
}

-- An account on which every rule holds.
pub record IsSound (a : Account) : Type 0 where
  pub identified : a.id ≢ []
  pub email : a.email ≢ []
  pub host : a.host ≢ []
  pub port : (n : ℕ) × (a.port ≡ pos n) × (1 ≤ n) × (n ≤ 65_535)
  pub username : a.username ≢ []
  pub tls : (b : Bool) × (a.tls ≡ some b)
  pub password_id : a.password_ref.id ≢ []
  pub source : a.password_ref.source ≡ codes "file"
  pub provider : a.password_ref.provider ≡ codes "local"
  pub policy :
      (a.policy ≡ policy_full)
      ⊎ ((a.policy ≡ policy_domain)
          × (a.domains ≢ [])
          × All (λ domain. trim_space domain ≢ []) a.domains)
  pub folders : a.folders ≢ []

abbrev pub Distinct : List Text → Type 0
Distinct [] = Unit
Distinct (x ∷ xs) = (In x xs → ⊥) × Distinct xs

pub record IsValid (c : Config) : Type 0 where
  pub lifetime : (c.cache_ttl ≡ []) ⊎ ((ttl : ℤ) × (parse_ttl c.cache_ttl ≡ ok ttl))
  pub limit : (n : ℕ) × (c.default_limit ≡ pos n)
  pub sound : All IsSound c.accounts
  pub distinct : Distinct (map (λ (a : Account). a.id) c.accounts)

append_nil : {A : Type 0} (xs ys : List A) → xs ++ ys ≡ [] → (xs ≡ []) × (ys ≡ [])
append_nil [] ys h = (refl, h)
append_nil (x ∷ xs) ys h = cc

unless_nil : (b : Bool) (p : Problem) → unless b p ≡ [] → b ≡ true
unless_nil true p h = refl
unless_nil false p h = cc

not_empty : {A : Type 0} (xs : List A) → not (is_empty xs) ≡ true → xs ≢ []
not_empty [] h = cc
not_empty (x ∷ xs) h = λ e. cc

filled : {A : Type 0} (xs : List A) (p : Problem) → unless (not (is_empty xs)) p ≡ [] → xs ≢ []
filled xs p h = not_empty xs (unless_nil _ p h)

port_lem : (port : ℤ) → is_port port ≡ true → (n : ℕ) × (port ≡ pos n) × (1 ≤ n) × (n ≤ 65_535)
port_lem (pos n) h = (n, refl, ground arith, ground arith)
port_lem (negsuc n) h = cc

tls_lem : (tls : Option Bool) → has_tls tls ≡ true → (b : Bool) × (tls ≡ some b)
tls_lem none h = cc
tls_lem (some b) h = (b, refl)

domains_lem :
    (i j : ℕ) (domains : List Text)
    → domain_problems i j domains ≡ []
    → All (λ domain. trim_space domain ≢ []) domains
unfolding domain_problems
domains_lem i j [] h = tt
domains_lem i j (d ∷ ds) h =
    let (p, q) = append_nil _ _ h in (filled (trim_space d) _ p, domains_lem i (suc j) ds q)

policy_lem :
    (i : ℕ) (a : Account)
    → policy_problems i a ≡ []
    → (a.policy ≡ policy_full)
      ⊎ ((a.policy ≡ policy_domain)
          × (a.domains ≢ [])
          × All (λ domain. trim_space domain ≢ []) a.domains)
unfolding policy_problems
policy_lem i a h = elim (Bool-cases (same a.policy policy_full)) [
  | inl full ↦ inl ((same_iff a.policy policy_full).0 full)
  | inr other ↦ elim (Bool-cases (same a.policy policy_domain)) [
    | inl domain ↦
        let (p, q) = append_nil _ _ (rw (other, domain) at h) in
        inr (
          (same_iff a.policy policy_domain).0 domain,
          filled a.domains _ p,
          domains_lem i 0 a.domains q,
        )
    | inr unknown ↦ elim (Bool-cases (is_empty a.policy)) [
      | inl e ↦ absurd (refused (missing_policy i) (rw (other, unknown, e) at h))
      | inr e ↦ absurd (refused (bad_policy i) (rw (other, unknown, e) at h))
    ]
  ]
]
  where
    refused : (p : Problem) → p ∷ [] ≡ [] → ⊥
    refused p e = cc

contains-In : (id : Text) (seen : List Text) → In id seen → contains_text id seen ≡ true
unfolding contains_text
contains-In id [] i = absurd i
contains-In id (x ∷ xs) (inl e) = rw (e, same_refl id) refl
contains-In id (x ∷ xs) (inr i) = ground (arith, contains-In id xs i)

-- An id that raises no problem is not empty, and new.
id_lem :
    (i : ℕ) (seen : List Text) (id : Text)
    → id_problems i seen id ≡ []
    → (id ≢ []) × (is_empty id ≡ false) × (In id seen → ⊥)
unfolding id_problems
id_lem i seen [] h = cc
id_lem i seen (r ∷ rs) h =
    (λ e. cc, refl, λ j. clash (contains-In (r ∷ rs) seen j) (unless_nil _ _ h))
  where
    clash : contains_text (r ∷ rs) seen ≡ true → not (contains_text (r ∷ rs) seen) ≡ true → ⊥
    clash a b = ground arith

-- The ids of the accounts are distinct, and new to `seen`.
abbrev AreNew : List Text → List Account → Type 0
AreNew seen accounts =
    Distinct (map (λ (a : Account). a.id) accounts)
    × ((id : Text) → In id seen → In id (map (λ (a : Account). a.id) accounts) → ⊥)

AreNew-cons :
    (seen : List Text) (a : Account) (accounts : List Account)
    → (In a.id seen → ⊥)
    → AreNew (a.id ∷ seen) accounts
    → AreNew seen (a ∷ accounts)
AreNew-cons seen a accounts new (d, f) = ((λ i. f a.id (inl refl) i, d), apart)
  where
    apart : (id : Text) → In id seen → In id (a.id ∷ map (λ (a : Account). a.id) accounts) → ⊥
    apart id s (inl e) = new (subst (λ x. In x seen) (sym e) s)
    apart id s (inr i) = f id (inr s) i

fields_lem :
    (i : ℕ) (a : Account)
    → a.id ≢ []
    → field_problems i a ≡ []
    → policy_problems i a ≡ []
    → a.folders ≢ []
    → IsSound a
unfolding field_problems
fields_lem i a named h policy folders =
    let (h1, provider) = append_nil _ _ h in
    let (h2, source) = append_nil _ _ h1 in
    let (h3, password_id) = append_nil _ _ h2 in
    let (h4, tls) = append_nil _ _ h3 in
    let (h5, username) = append_nil _ _ h4 in
    let (h6, port) = append_nil _ _ h5 in
    let (email, host) = append_nil _ _ h6 in
    record {
      identified = named;
      email = filled a.email _ email;
      host = filled a.host _ host;
      port = port_lem a.port (unless_nil _ _ port);
      username = filled a.username _ username;
      tls = tls_lem a.tls (unless_nil _ _ tls);
      password_id = filled a.password_ref.id _ password_id;
      source = (same_iff a.password_ref.source (codes "file")).0 (unless_nil _ _ source);
      provider = (same_iff a.password_ref.provider (codes "local")).0 (unless_nil _ _ provider);
      policy = policy_lem i a policy;
      folders = folders;
    }

accounts_lem :
    (i : ℕ) (seen : List Text) (accounts : List Account)
    → account_problems i seen accounts ≡ []
    → All IsSound accounts × AreNew seen accounts
unfolding account_problems
accounts_lem i seen [] h = (tt, (tt, λ id s e. absurd e))
accounts_lem i seen (a ∷ accounts) h =
    let (h1, rest) = append_nil _ _ h in
    let (h2, by_folder) = append_nil _ _ h1 in
    let (h3, by_policy) = append_nil _ _ h2 in
    let (by_id, by_field) = append_nil _ _ h3 in
    let (named, not_blank, new) = id_lem i seen a.id by_id in
    let (sound, fresh) = accounts_lem (suc i) (a.id ∷ seen) accounts (rw not_blank at rest) in
    (
      (fields_lem i a named by_field by_policy (filled a.folders _ by_folder), sound),
      AreNew-cons seen a accounts new fresh,
    )

limit_lem : (i : ℤ) → not (negative i) ≡ true → (n : ℕ) × (i ≡ pos n)
limit_lem (pos n) h = (n, refl)
limit_lem (negsuc n) h = cc

ttl_lem : (res : Result TtlError ℤ) → ttl_problems res ≡ [] → (ttl : ℤ) × (res ≡ ok ttl)
ttl_lem (ok ttl) h = (ttl, refl)
ttl_lem (err e) h = cc

lifetime_lem :
    (ttl : Text)
    → (if is_empty ttl then [] else ttl_problems (parse_ttl ttl)) ≡ []
    → (ttl ≡ []) ⊎ ((n : ℤ) × (parse_ttl ttl ≡ ok n))
lifetime_lem [] h = inl refl
lifetime_lem (r ∷ rs) h = inr (ttl_lem (parse_ttl (r ∷ rs)) h)

-- A configuration in which Validate finds no problem has a lifetime that is empty or parses, a default
-- limit that is not negative, and accounts with ids that are all different, each with an id, an email, a
-- host, a port from 1 to 65535, a user name, a choice of tls, a password in the local file, a folder,
-- and the policy full or the policy domain with domains that are not blank.
pub validate-IsValid : (c : Config) → validate c ≡ [] → IsValid c
unfolding validate
validate-IsValid c h =
    let (h1, by_account) = append_nil _ _ h in
    let (by_ttl, by_limit) = append_nil _ _ h1 in
    let (sound, fresh) = accounts_lem 0 [] c.accounts by_account in
    record {
      lifetime = lifetime_lem c.cache_ttl by_ttl;
      limit = limit_lem c.default_limit (unless_nil _ _ by_limit);
      sound = sound;
      distinct = fresh.0;
    }
