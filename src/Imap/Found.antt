-- ===== src/Imap/Found.antt =====
-- internal/imapadapter/adapter.go: parseSearchUIDs on the replies of a server that found messages.
use ksuite_mail.Common.{
  ℕ, ◌+◌, ◌^◌, ◌<◌, ◌≡◌, refl, ap, ap, ◌∙◌, true, false, some, List, [], ◌∷◌, ◌++◌, map, Text,
  codes, any, arith, Bool-cases, inl, inr, All, same, eq→same,
}
use mathlib.Core.List.{append-nil, append_assoc}
use ksuite_mail.Strings.{Platform, is_space, is_empty, fields, fields_from, flush, to_upper}
use ksuite_mail.Mail.{decimal}
use ksuite_mail.Mail.Decimals.{any-decimal}
use ksuite_mail.Settings.Digits.{unsigned-decimal, decimal_not_empty}
use ksuite_mail.Refresh.Uids.{dedupe_uids}
use ksuite_mail.Imap.Search.{
  parse_uint, uids_of_fields, uids_of_line, uids_of_lines, parse_search_uids,
}

-- A SEARCH reply of RFC 3501: the UIDs in decimals, a space before each.
unfoldable pub uid_texts : List ℕ → Text
uid_texts [] = []
uid_texts (u ∷ us) = b' ' ∷ (decimal u ++ uid_texts us)

abbrev pub search_reply : List ℕ → Text
search_reply us = codes "* SEARCH" ++ uid_texts us

-- A UID of RFC 3501: 32 bits, and not 0.
abbrev pub IsUid : ℕ → Type 0
IsUid u = (0 < u) × (u < 2 ^ 32)

fields_from_word :
    (cur word rest : Text)
    → any is_space word ≡ false
    → fields_from is_space cur (word ++ rest) ≡ fields_from is_space (cur ++ word) rest
unfolding fields_from
fields_from_word cur [] rest h = rw append-nil refl
fields_from_word cur (r ∷ rs) rest h = elim (Bool-cases (is_space r)) [
  | inl e ↦ ground (arith, e)
  | inr e ↦ rw e (
      fields_from_word (cur ++ r ∷ []) rs rest (ground arith)
      ∙ ap (λ c. fields_from is_space c rest) (append_assoc cur (r ∷ []) rs))
]

digit_no_space : (j : ℕ) → j < 10 → is_space (b'0' + j) ≡ false
unfolding is_space
digit_no_space j h = ground arith

flush-decimal : (u : ℕ) (rest : List Text) → flush (decimal u) rest ≡ decimal u ∷ rest
flush-decimal u rest = full (decimal u) (decimal_not_empty u)
  where
    full : (t : Text) → is_empty t ≡ false → flush t rest ≡ t ∷ rest
    full [] h = cc
    full (r ∷ rs) h = refl

fields_from-uid_texts :
    (cur : Text) (us : List ℕ)
    → fields_from is_space cur (uid_texts us) ≡ flush cur (map decimal us)
unfolding fields_from uid_texts is_space
fields_from-uid_texts cur [] = refl
fields_from-uid_texts cur (u ∷ us) = ap (flush cur) (
    fields_from_word [] (decimal u) (uid_texts us) (any-decimal is_space digit_no_space u)
    ∙ fields_from-uid_texts (decimal u) us
    ∙ flush-decimal u (map decimal us))

fields-search_reply :
    (us : List ℕ) → fields (search_reply us) ≡ codes "*" ∷ codes "SEARCH" ∷ map decimal us
unfolding fields_from is_space
fields-search_reply us = ap (λ r. codes "*" ∷ r) (fields_from-uid_texts (codes "SEARCH") us)

parse_uint-decimal : (u : ℕ) → u < 2 ^ 32 → parse_uint (decimal u) ≡ some u
unfolding parse_uint
parse_uint-decimal u h = rw (unsigned-decimal u (omega arith)) (ground arith)

uids_of_fields-decimal : (us : List ℕ) → All IsUid us → uids_of_fields (map decimal us) ≡ us
unfolding uids_of_fields
uids_of_fields-decimal [] h = refl
uids_of_fields-decimal (u ∷ us) ((pos, fits), h) =
    rw (parse_uint-decimal u fits, uids_of_fields-decimal us h) (ground arith)

abbrev pub concat : List (List ℕ) → List ℕ
concat [] = []
concat (us ∷ uss) = us ++ concat uss

uids_of_line_lem :
    (p : Platform) (word : Text) (rest : List Text)
    → same (to_upper p word) (codes "SEARCH") ≡ true
    → uids_of_line p (codes "*" ∷ word ∷ rest) ≡ uids_of_fields rest
unfolding uids_of_line same
uids_of_line_lem p word rest e = rw e refl

module _ (p : Platform) (ascii : to_upper p (codes "SEARCH") ≡ codes "SEARCH") where
  uids_of_lines-search_reply :
      (uss : List (List ℕ))
      → All (All IsUid) uss
      → uids_of_lines p (map search_reply uss) ≡ concat uss
  unfolding uids_of_lines
  uids_of_lines-search_reply [] h = refl
  uids_of_lines-search_reply (us ∷ uss) (hu, h) = rw (
    fields-search_reply us,
    uids_of_line_lem p (codes "SEARCH") (map decimal us) (eq→same _ _ ascii),
    uids_of_fields-decimal us hu,
    uids_of_lines-search_reply uss h,
  )

  -- What the replies to a search carry is read back: from any number of SEARCH replies, each with any
  -- UIDs of 32 bits that are not 0, parseSearchUIDs returns the UIDs of all of them, each once and in
  -- order. The upper case of SEARCH is SEARCH.
  pub parse_search_uids-search_reply :
      (uss : List (List ℕ))
      → All (All IsUid) uss
      → parse_search_uids p (map search_reply uss) ≡ dedupe_uids (concat uss)
  unfolding parse_search_uids
  parse_search_uids-search_reply uss h = ap dedupe_uids (uids_of_lines-search_reply uss h)
