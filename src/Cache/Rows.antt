-- ===== src/Cache/Rows.antt =====
-- How the statements of internal/cache/cache.go act on the rows that a test selects.
use ksuite_mail.Common.{
  suc, ◌≤◌, ◌≡◌, refl, ap, Bool, true, false, List, [], ◌∷◌, ◌++◌, map, arith, if◌then◌else◌,
  Bool-cases, inl, inr, retain, any, length, Text, same, same_iff,
}
use ksuite_mail.Mail.{CachedMessage}
use ksuite_mail.Cache.Tables.{FtsRow, has_id, delete_where, update_where, fts_row, delete_fts}
use ksuite_mail.Cache.Reads.{select_id}

module _ {A : Type 0} where
  pub retain-append :
      (p : A → Bool) (xs ys : List A) → retain p (xs ++ ys) ≡ retain p xs ++ retain p ys
  retain-append p [] ys = refl
  retain-append p (x ∷ xs) ys = ground (arith, retain-append p xs ys)

  pub length-retain-retain-le :
      (p q : A → Bool) (xs : List A) → length (retain p (retain q xs)) ≤ length (retain p xs)
  length-retain-retain-le p q [] = omega arith
  length-retain-retain-le p q (x ∷ xs) = ground (arith, length-retain-retain-le p q xs)

  pub retain_none : (p : A → Bool) (xs : List A) → any p xs ≡ false → retain p xs ≡ []
  retain_none p [] h = refl
  retain_none p (x ∷ xs) h = ground (arith, retain_none p xs)

  pub retain_some : (p : A → Bool) (xs : List A) → any p xs ≡ true → 1 ≤ length (retain p xs)
  retain_some p [] h = cc
  retain_some p (x ∷ xs) h = ground (arith, retain_some p xs)

-- The rows of messages_fts with a public id.
abbrev pub select_fts : Text → List FtsRow → List FtsRow
select_fts k rows = retain (λ row. same row.public_id k) rows

pub select_id-delete_where :
    (j k : Text) (rows : List CachedMessage)
    → select_id k (delete_where (has_id j) rows) ≡ (if same j k then [] else select_id k rows)
select_id-delete_where j k [] = ground arith
select_id-delete_where j k (x ∷ xs) =
    ground (arith, select_id-delete_where j k xs, same_iff x.id j, same_iff x.id k, same_iff j k)

pub select_fts-delete_fts :
    (j k : Text) (rows : List FtsRow)
    → select_fts k (delete_fts j rows) ≡ (if same j k then [] else select_fts k rows)
select_fts-delete_fts j k [] = ground arith
select_fts-delete_fts j k (x ∷ xs) = ground (
  arith,
  select_fts-delete_fts j k xs,
  same_iff x.public_id j,
  same_iff x.public_id k,
  same_iff j k,
)

-- An update that leaves a test as it is.
module _ (p test : CachedMessage → Bool) (f : CachedMessage → CachedMessage)
    (stable : (x : CachedMessage) → p (f x) ≡ p x) where
  pub retain-update_where :
      (xs : List CachedMessage)
      → retain p (update_where test f xs) ≡ update_where test f (retain p xs)
  unfolding update_where
  retain-update_where [] = refl
  retain-update_where (x ∷ xs) = ground (arith, retain-update_where xs, stable x)

pub length-update_where :
    (test : CachedMessage → Bool) (f : CachedMessage → CachedMessage) (xs : List CachedMessage)
    → length (update_where test f xs) ≡ length xs
unfolding update_where
length-update_where test f [] = refl
length-update_where test f (x ∷ xs) = ap suc (length-update_where test f xs)

pub map-fts_row-update_where :
    (test : CachedMessage → Bool) (f : CachedMessage → CachedMessage)
    → ((x : CachedMessage) → fts_row (f x) ≡ fts_row x)
    → (xs : List CachedMessage) → map fts_row (update_where test f xs) ≡ map fts_row xs
unfolding update_where
map-fts_row-update_where test f same_row [] = refl
map-fts_row-update_where test f same_row (x ∷ xs) = elim (Bool-cases (test x)) [
  | inl e ↦ rw (e, same_row x, map-fts_row-update_where test f same_row xs)
  | inr e ↦ rw (e, map-fts_row-update_where test f same_row xs)
]
