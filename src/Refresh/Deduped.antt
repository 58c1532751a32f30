-- ===== src/Refresh/Deduped.antt =====
-- internal/refresh/refresh.go: what dedupeUIDs returns.
use ksuite_mail.Common.{
  ℕ, ◌<◌, ◌≡◌, refl, ap, ◌∙◌, true, false, not, ◌&&◌, ◌||◌, inl, inr, Bool-cases, List, [], ◌∷◌,
  arith, ltb, ltb→lt, ==_iff, ◌==◌, All,
}
use ksuite_mail.Cache.Writes.{has_uid}
use ksuite_mail.Refresh.Uids.{insert_uid, sort_uids, unique_from, dedupe_uids}

-- Each UID is lower than all that follow.
abbrev pub Ascending : List ℕ → Type 0
Ascending [] = Unit
Ascending (u ∷ us) = All (λ v. u < v) us × Ascending us

abbrev NoneTwice : List ℕ → Type 0
NoneTwice [] = Unit
NoneTwice (u ∷ us) = (has_uid us u ≡ false) × NoneTwice us

has_uid-insert_uid :
    (u : ℕ) (vs : List ℕ) (w : ℕ) → has_uid (insert_uid u vs) w ≡ ((u == w) || has_uid vs w)
unfolding insert_uid
has_uid-insert_uid u [] w = refl
has_uid-insert_uid u (v ∷ vs) w = ground (arith, has_uid-insert_uid u vs w)

has_uid-sort_uids : (us : List ℕ) (w : ℕ) → has_uid (sort_uids us) w ≡ has_uid us w
unfolding sort_uids
has_uid-sort_uids [] w = refl
has_uid-sort_uids (u ∷ us) w =
    has_uid-insert_uid u (sort_uids us) w ∙ ap (λ b. (u == w) || b) (has_uid-sort_uids us w)

has_uid-unique_from :
    (seen us : List ℕ) (w : ℕ)
    → has_uid (unique_from seen us) w ≡ (has_uid us w && not (has_uid seen w))
unfolding unique_from
has_uid-unique_from seen [] w = refl
has_uid-unique_from seen (u ∷ us) w = elim (Bool-cases (has_uid seen u)) [
  | inl old ↦ rw old (has_uid-unique_from seen us w ∙ known old)
  | inr new ↦ rw new (ap (λ b. (u == w) || b) (has_uid-unique_from (u ∷ seen) us w) ∙ added new)
]
  where
    same_place : (u == w) ≡ true → has_uid seen u ≡ has_uid seen w
    same_place e = ap (has_uid seen) ((==_iff u w).0 e)

    known :
        has_uid seen u ≡ true
        → (has_uid us w && not (has_uid seen w))
          ≡ (((u == w) || has_uid us w) && not (has_uid seen w))
    known old = elim (Bool-cases (u == w)) [
      | inl e ↦ rw (← same_place e, old) (ground arith)
      | inr e ↦ rw e refl
    ]

    added :
        has_uid seen u ≡ false
        → ((u == w) || (has_uid us w && not ((u == w) || has_uid seen w)))
          ≡ (((u == w) || has_uid us w) && not (has_uid seen w))
    added new = elim (Bool-cases (u == w)) [
      | inl e ↦ rw (e, ← same_place e, new) refl
      | inr e ↦ rw e refl
    ]

unique_from-NoneTwice : (seen us : List ℕ) → NoneTwice (unique_from seen us)
unfolding unique_from
unique_from-NoneTwice seen [] = tt
unique_from-NoneTwice seen (u ∷ us) = elim (Bool-cases (has_uid seen u)) [
  | inl old ↦ rw old (unique_from-NoneTwice seen us)
  | inr new ↦ rw new (once, unique_from-NoneTwice (u ∷ seen) us)
]
  where
    once : has_uid (unique_from (u ∷ seen) us) u ≡ false
    once = ground (arith, has_uid-unique_from (u ∷ seen) us u)

All-insert_uid : (P : ℕ → Type 0) (u : ℕ) (vs : List ℕ) → P u → All P vs → All P (insert_uid u vs)
unfolding insert_uid
All-insert_uid P u [] p a = (p, tt)
All-insert_uid P u (v ∷ vs) p (q, a) = elim (Bool-cases (ltb v u)) [
  | inl e ↦ rw e (q, All-insert_uid P u vs p a)
  | inr e ↦ rw e (p, (q, a))
]

All-le : (u v : ℕ) (vs : List ℕ) → u < v → All (λ w. v < w) vs → All (λ w. u < w) vs
All-le u v [] l a = tt
All-le u v (w ∷ ws) l (q, a) = (omega (arith, l, q), All-le u v ws l a)

insert_uid-Ascending :
    (u : ℕ) (vs : List ℕ) → has_uid vs u ≡ false → Ascending vs → Ascending (insert_uid u vs)
unfolding insert_uid
insert_uid-Ascending u [] n a = (tt, tt)
insert_uid-Ascending u (v ∷ vs) n (q, a) = elim (Bool-cases (ltb v u)) [
  | inl e ↦ rw e (
    All-insert_uid (λ w. v < w) u vs (ltb→lt v u e) q,
    insert_uid-Ascending u vs (ground arith) a,
  )
  | inr e ↦ rw e ((less e, All-le u v vs (less e) q), (q, a))
]
  where
    less : ltb v u ≡ false → u < v
    less e = ground arith

sort_uids-Ascending : (us : List ℕ) → NoneTwice us → Ascending (sort_uids us)
unfolding sort_uids
sort_uids-Ascending [] n = tt
sort_uids-Ascending (u ∷ us) (n, ns) =
    insert_uid-Ascending u (sort_uids us) (has_uid-sort_uids us u ∙ n) (sort_uids-Ascending us ns)

-- What dedupeUIDs returns ascends strictly, so no UID is there twice, and has exactly the UIDs given.
pub dedupe_uids-Ascending :
    (uids : List ℕ)
    → Ascending (dedupe_uids uids) × ((w : ℕ) → has_uid (dedupe_uids uids) w ≡ has_uid uids w)
unfolding dedupe_uids
dedupe_uids-Ascending uids = (
  sort_uids-Ascending (unique_from [] uids) (unique_from-NoneTwice [] uids),
  λ w. has_uid-sort_uids (unique_from [] uids) w ∙ has_uid-unique_from [] uids w ∙ ground arith,
)
