-- ===== src/Secrets/Loaded.antt =====
-- internal/secrets/secrets.go: what Load accepts.
use ksuite_mail.Common.{
  ℕ, ◌/◌, ◌%◌, ◌≡◌, refl, inl, inr, Bool-cases, Option-cases, Result-cases, some, ok, err, Text,
  arith, ◌==◌, ==_iff,
}
use ksuite_mail.Common.Ints.{pos}
use ksuite_mail.Secrets.{Store, SecretsFile, load, perm_bits, beyond_owner, unsafe_permissions}

-- The two last octal digits of the mode, for the group and for the others, are 0.
abbrev pub IsPrivate : ℕ → Type 0
IsPrivate mode = (mode % 8 ≡ 0) × ((mode / 8) % 8 ≡ 0)

-- The file is private to its owner, can be read, and decodes to a store of version 1.
abbrev pub IsStoreOf : SecretsFile → Store → Type 0
IsStoreOf f s =
    (mode : ℕ) × (text : Text) × (f.mode ≡ ok mode)
    × IsPrivate mode
    × (f.contents ≡ ok text)
    × (f.decode text ≡ some s)
    × (s.version ≡ pos 1)

IsPrivate-iff :
    (mode : ℕ)
    → (beyond_owner (perm_bits mode) ≡ 0 → IsPrivate mode)
      × (IsPrivate mode → beyond_owner (perm_bits mode) ≡ 0)
IsPrivate-iff mode = (λ h. (omega arith, omega arith), λ (a, b). omega arith)

-- Load gives a store exactly of a file that is private to its owner, can be read, and decodes to a store
-- of version 1; a file that is not private is refused as such, whatever it has.
pub load-IsStoreOf :
    (f : SecretsFile)
    → ((s : Store) → (load f ≡ ok s → IsStoreOf f s) × (IsStoreOf f s → load f ≡ ok s))
      × ((mode : ℕ) → f.mode ≡ ok mode → ¬ IsPrivate mode → load f ≡ err unsafe_permissions)
unfolding load
load-IsStoreOf f = (λ s. (given s, taken s), refused)
  where
    given : (s : Store) → load f ≡ ok s → IsStoreOf f s
    given s h = elim (Result-cases f.mode) [
      | inr (e, p) ↦ ground arith
      | inl (mode, p) ↦ elim (Result-cases f.contents) [
        | inr (e, q) ↦ ground arith
        | inl (text, q) ↦ elim (Option-cases (f.decode text)) [
          | inl d ↦ ground arith
          | inr (t, d) ↦
              (mode, text, p, (IsPrivate-iff mode).0 (ground arith), q, ground arith, ground arith)
        ]
      ]
    ]

    taken : (s : Store) → IsStoreOf f s → load f ≡ ok s
    taken s (mode, text, p, private, q, d, v) =
        let mask = (IsPrivate-iff mode).1 private in rw (p, mask, q, d, v) refl

    refused : (mode : ℕ) → f.mode ≡ ok mode → ¬ IsPrivate mode → load f ≡ err unsafe_permissions
    refused mode p n = elim (Bool-cases (beyond_owner (perm_bits mode) == 0)) [
      | inl e ↦ absurd (n ((IsPrivate-iff mode).0 ((==_iff _ 0).0 e)))
      | inr e ↦ rw (p, e) refl
    ]
