-- ===== src/Imap/Search.antt =====
-- internal/imapadapter/adapter.go: the UIDs of the replies to UID SEARCH.
use ksuite_mail.Common.{
  ℕ, ◌^◌, Bool, ◌&&◌, Option, none, some, List, [], ◌∷◌, ◌++◌, ltb, ◌==◌, if◌then◌else◌, Text,
  codes, same,
}
use ksuite_mail.Strings.{Platform, fields, to_upper}
use ksuite_mail.Settings.{unsigned}
use ksuite_mail.Refresh.Uids.{dedupe_uids, to_uid}

-- strconv.ParseUint(field, 10, 64)
abbrev below_u64 : Option ℕ → Option ℕ
below_u64 none = none
below_u64 (some n) = if ltb n (2 ^ 64) then some n else none

unfoldable pub parse_uint : Text → Option ℕ
unfolding unsigned
parse_uint field = below_u64 (unsigned field)

-- One round of the inner loop.
abbrev add_uid : Option ℕ → List ℕ → List ℕ
add_uid none rest = rest
add_uid (some n) rest = if n == 0 then rest else to_uid n ∷ rest

unfoldable pub uids_of_fields : List Text → List ℕ
unfolding parse_uint
uids_of_fields [] = []
uids_of_fields (f ∷ fs) = add_uid (parse_uint f) (uids_of_fields fs)

unfoldable pub uids_of_line : Platform → List Text → List ℕ
unfolding uids_of_fields
uids_of_line p [] = []
uids_of_line p (star ∷ []) = []
uids_of_line p (star ∷ word ∷ rest) =
    if same star (codes "*") && same (to_upper p word) (codes "SEARCH")
    then uids_of_fields rest
    else []

unfoldable pub uids_of_lines : Platform → List Text → List ℕ
unfolding uids_of_line
uids_of_lines p [] = []
uids_of_lines p (line ∷ lines) = uids_of_line p (fields line) ++ uids_of_lines p lines

-- parseSearchUIDs: `seen` keeps the first of each UID over all lines.
unfoldable pub parse_search_uids : Platform → List Text → List ℕ
unfolding uids_of_lines dedupe_uids
parse_search_uids p lines = dedupe_uids (uids_of_lines p lines)

-- firstField
abbrev first_of : List Text → Text
first_of [] = []
first_of (f ∷ fs) = f

unfoldable pub first_field : Text → Text
first_field value = first_of (fields value)

-- hasSeenFlag
unfoldable pub has_seen_flag : List Text → Bool
has_seen_flag [] = Bool.false
has_seen_flag (flag ∷ flags) = if same flag (codes "\\Seen") then Bool.true else has_seen_flag flags
