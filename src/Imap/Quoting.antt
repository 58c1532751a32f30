-- ===== src/Imap/Quoting.antt =====
-- internal/imapadapter/adapter.go: quoteIMAPString, and what a server reads from it.
use ksuite_mail.Common.{
  ℕ, ◌≡◌, refl, Bool, true, false, not, ◌||◌, Option, none, some, [], ◌∷◌, ◌++◌, ◌==◌,
  if◌then◌else◌, Text, arith, Bool-cases, inl, inr, retain, any, all, leb, ◌&&◌,
}
use mathlib.Core.List.{append_assoc}

abbrev pub is_special : ℕ → Bool
is_special r = r == 0x5c || r == 0x22

abbrev pub is_break : ℕ → Bool
is_break r = r == 0x0d || r == 0x0a

-- One round of the loop.
abbrev pub quote_rune : ℕ → Text
quote_rune r = if is_special r then 0x5c ∷ r ∷ [] else if is_break r then [] else r ∷ []

unfoldable pub quote_runes : Text → Text
quote_runes [] = []
quote_runes (r ∷ rs) = quote_rune r ++ quote_runes rs

-- quoteIMAPString
unfoldable pub quote_imap_string : Text → Text
unfolding quote_runes
quote_imap_string value = 0x22 ∷ (quote_runes value ++ 0x22 ∷ [])

-- CHAR of RFC 3501, %x01-7F, and TEXT-CHAR, which has no CR and no LF.
abbrev pub is_char : ℕ → Bool
is_char r = leb 0x01 r && leb r 0x7f

abbrev is_text : ℕ → Bool
is_text r = is_char r && not (is_break r)

-- The quoted string of RFC 3501 as a server reads it: what stands between the quotes, and the rest of
-- the line. Of the other runes only a TEXT-CHAR is read.
abbrev pub prepend : ℕ → Option (Text × Text) → Option (Text × Text)
prepend r none = none
prepend r (some (value, rest)) = some (r ∷ value, rest)

abbrev pub escaped : ℕ → Option (Text × Text) → Option (Text × Text)
escaped r rest = if is_special r then prepend r rest else none

unfoldable pub read_runes : Text → Option (Text × Text)
read_runes [] = none
read_runes (r ∷ []) = if r == 0x22 then some ([], []) else none
read_runes (r ∷ s ∷ rs) =
    let after = read_runes rs in
    let next = read_runes (s ∷ rs) in
    if r == 0x22
    then some ([], s ∷ rs)
    else if r == 0x5c
    then escaped s after
    else if is_text r
    then prepend r next
    else none

unfoldable pub read_quoted : Text → Option (Text × Text)
unfolding read_runes
read_quoted [] = none
read_quoted (r ∷ rs) = if r == 0x22 then read_runes rs else none

abbrev pub without_breaks : Text → Text
without_breaks value = retain (λ r. not (is_break r)) value

read_runes_other :
    (r : ℕ) (q : Text)
    → is_special r ≡ false
    → read_runes (r ∷ q) ≡ (if is_text r then prepend r (read_runes q) else none)
unfolding read_runes
read_runes_other r [] s = ground arith
read_runes_other r (x ∷ xs) s = ground arith

read_runes_escaped :
    (r : ℕ) (q : Text) → is_special r ≡ true → read_runes (0x5c ∷ r ∷ q) ≡ prepend r (read_runes q)
unfolding read_runes
read_runes_escaped r q s = ground arith

special_not_break : (r : ℕ) → is_special r ≡ true → is_break r ≡ false
special_not_break r s = ground arith

-- What a server reads where the value is made of CHAR, and that it refuses any other.
abbrev pub read_value : Bool → Text → Text → Option (Text × Text)
read_value true value rest = some (value, rest)
read_value false value rest = none

prepend-read_value :
    (b : Bool) (r : ℕ) (value rest : Text)
    → prepend r (read_value b value rest) ≡ read_value b (r ∷ value) rest
prepend-read_value true r value rest = refl
prepend-read_value false r value rest = refl

special_is_char : (r : ℕ) → is_special r ≡ true → is_char r ≡ true
special_is_char r s = ground arith

break_is_char : (r : ℕ) → is_break r ≡ true → is_char r ≡ true
break_is_char r s = ground arith

read_runes-quote_runes :
    (value rest : Text)
    → read_runes (quote_runes value ++ (0x22 ∷ rest))
      ≡ read_value (all is_char value) (without_breaks value) rest
unfolding read_runes quote_runes
read_runes-quote_runes [] [] = refl
read_runes-quote_runes [] (s ∷ rs) = refl
read_runes-quote_runes (r ∷ rs) rest =
    let ih = read_runes-quote_runes rs rest in
    let q = quote_runes rs ++ (0x22 ∷ rest) in
    let more = prepend-read_value (all is_char rs) r (without_breaks rs) rest in
    elim (Bool-cases (is_special r)) [
      | inl s ↦
          rw (s, special_not_break r s, read_runes_escaped r q s, ih, special_is_char r s) more
      | inr s ↦ elim (Bool-cases (is_break r)) [
        | inl b ↦ rw (s, b, break_is_char r b) ih
        | inr b ↦ elim (Bool-cases (is_char r)) [
          | inl c ↦ rw (s, b, read_runes_other r q s, c, b, ih) more
          | inr c ↦ rw (s, b, read_runes_other r q s, c) refl
        ]
      ]
    ]

-- Whatever follows it, the quoted text is read as the value without its line breaks, and the reading
-- ends where the quoted text ends, if each rune of the value is a CHAR of RFC 3501; and it is refused, if
-- one is not.
pub read_quoted-quote_imap_string :
    (value rest : Text)
    → read_quoted (quote_imap_string value ++ rest)
      ≡ read_value (all is_char value) (without_breaks value) rest
unfolding read_quoted quote_imap_string
read_quoted-quote_imap_string value rest =
    rw (append_assoc (quote_runes value)) (read_runes-quote_runes value rest)

-- No quoted text breaks the line it is sent on.
pub quote_runes_line : (value : Text) → any is_break (quote_runes value) ≡ false
unfolding quote_runes
quote_runes_line [] = refl
quote_runes_line (r ∷ rs) = ground (arith, quote_runes_line rs)
