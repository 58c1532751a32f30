-- ===== src/Strings.antt =====
-- The functions of Go's `strings` and `unicode/utf8` that the program calls, on lists of runes.
use ksuite_mail.Common.{
  ℕ, ◌+◌, Bool, true, false, ◌&&◌, ◌||◌, Option, none, some, List, [], ◌∷◌, ◌++◌, map, ltb, leb,
  ◌==◌, if◌then◌else◌, Text, same,
}

-- What the program leaves to Go's Unicode tables, to net/mail and to the hash of crypto/sha256:
-- `lower` is unicode.ToLower, `upper` is unicode.ToUpper, and `fold` takes a rune to the least of those
-- that unicode.SimpleFold connects it to; `parse_address_list` is the list of addresses that
-- mail.ParseAddressList returns, `none` where it returns an error; `digest` is the lower case base32
-- text of the first 16 bytes of the SHA-256 hash of a text.
pub record Platform : Type 0 where
  pub lower : ℕ → ℕ
  pub upper : ℕ → ℕ
  pub fold : ℕ → ℕ
  pub parse_address_list : Text → Option (List Text)
  pub digest : Text → Text

-- The bytes of a rune in UTF-8.
abbrev pub rune_len : ℕ → ℕ
rune_len r = if ltb r 0x80 then 1 else if ltb r 0x800 then 2 else if ltb r 0x10000 then 3 else 4

-- len(s)
unfoldable pub byte_len : Text → ℕ
byte_len [] = 0
byte_len (r ∷ rs) = rune_len r + byte_len rs

-- unicode.IsSpace
unfoldable pub is_space : ℕ → Bool
is_space r =
    (leb 9 r && leb r 13)
    || r == 0x20
    || r == 0x85
    || r == 0xa0
    || r == 0x1680
    || (leb 0x2000 r && leb r 0x200a)
    || r == 0x2028
    || r == 0x2029
    || r == 0x202f
    || r == 0x205f
    || r == 0x3000

unfoldable pub trim_left : Text → Text
trim_left [] = []
trim_left (r ∷ rs) = if is_space r then trim_left rs else r ∷ rs

abbrev pub cons_unless_blank : ℕ → Text → Text
cons_unless_blank r [] = if is_space r then [] else r ∷ []
cons_unless_blank r (x ∷ xs) = r ∷ x ∷ xs

unfoldable pub trim_right : Text → Text
trim_right [] = []
trim_right (r ∷ rs) = cons_unless_blank r (trim_right rs)

-- strings.TrimSpace
unfoldable pub trim_space : Text → Text
trim_space s = trim_right (trim_left s)

-- strings.ToLower
abbrev pub to_lower : Platform → Text → Text
to_lower p s = map p.lower s

-- strings.ToUpper
abbrev pub to_upper : Platform → Text → Text
to_upper p s = map p.upper s

-- strings.EqualFold
abbrev pub equal_fold : Platform → Text → Text → Bool
equal_fold p s t = same (map p.fold s) (map p.fold t)

abbrev pub is_empty {ℓ} : {A : Type ℓ} → List A → Bool
is_empty [] = true
is_empty (x ∷ xs) = false

-- strings.FieldsFunc: the runs of runes that are not separators. `cur` is the run being read, last
-- rune first.
abbrev pub flush : Text → List Text → List Text
flush [] rest = rest
flush (c ∷ cs) rest = (c ∷ cs) ∷ rest

unfoldable pub fields_from : (ℕ → Bool) → Text → Text → List Text
fields_from sep cur [] = flush cur []
fields_from sep cur (r ∷ rs) =
    let stop = flush cur (fields_from sep [] rs) in
    let go = fields_from sep (cur ++ r ∷ []) rs in if sep r then stop else go

abbrev pub fields_func : (ℕ → Bool) → Text → List Text
fields_func sep s = fields_from sep [] s

-- strings.Fields
abbrev pub fields : Text → List Text
fields s = fields_func is_space s

-- strings.Split(s, sep) at a one-rune separator; the result is never empty.
abbrev pub push_rune : ℕ → List Text → List Text
push_rune r [] = (r ∷ []) ∷ []
push_rune r (l ∷ ls) = (r ∷ l) ∷ ls

unfoldable pub split : ℕ → Text → List Text
split sep [] = [] ∷ []
split sep (r ∷ rs) = let rest = split sep rs in if r == sep then [] ∷ rest else push_rune r rest

-- strings.Join
unfoldable pub join : Text → List Text → Text
join sep [] = []
join sep (l ∷ []) = l
join sep (l ∷ m ∷ ms) = l ++ sep ++ join sep (m ∷ ms)

-- What stands behind the last `c`: s[strings.LastIndex(s, c)+1:], `none` where there is no `c`.
unfoldable pub after_last : ℕ → Text → Option Text
after_last c [] = none
after_last c (r ∷ rs) = elim (after_last c rs) [
  | some t ↦ some t
  | none ↦ if r == c then some rs else none
]

-- strings.HasPrefix
unfoldable pub has_prefix : Text → Text → Bool
has_prefix s [] = true
has_prefix [] (c ∷ cs) = false
has_prefix (r ∷ rs) (c ∷ cs) = r == c && has_prefix rs cs

-- strings.Contains
unfoldable pub contains : Text → Text → Bool
unfolding has_prefix
contains [] sub = has_prefix [] sub
contains (r ∷ rs) sub = has_prefix (r ∷ rs) sub || contains rs sub
