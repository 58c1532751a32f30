-- ===== src/Imap/Names.antt =====
-- internal/imapadapter/adapter.go: the names of capabilities and folders that are passed on.
use ksuite_mail.Common.{
  ℕ, Bool, true, false, not, ◌&&◌, ◌||◌, List, [], ◌∷◌, map, ltb, leb, ◌==◌, if◌then◌else◌, Text,
  all, any, retain,
}
use ksuite_mail.Strings.{Platform, byte_len, trim_space, to_upper, is_empty}

abbrev pub is_atom_rune : ℕ → Bool
is_atom_rune r = (leb b'A' r && leb r b'Z') || (leb b'0' r && leb r b'9') || r == b'-' || r == b'='

-- sanitizeCapability
unfoldable pub sanitize_capability : Platform → Text → Text
unfolding trim_space
sanitize_capability p cap =
    let clean = to_upper p (trim_space cap) in if all is_atom_rune clean then clean else []

abbrev pub is_control : ℕ → Bool
is_control r = ltb r 0x20 || r == 0x7f

-- sanitizeFolder
unfoldable pub sanitize_folder : Text → Text
unfolding trim_space byte_len
sanitize_folder folder =
    let clean = trim_space folder in
    if is_empty clean || ltb 256 (byte_len clean)
    then []
    else if any is_control clean
    then []
    else clean

-- The loop of Capabilities and Folders: the names that are left of those received.
unfoldable pub clean_names : (Text → Text) → List Text → List Text
clean_names clean xs = retain (λ x. not (is_empty x)) (map clean xs)

-- a < b of Go on strings, which for UTF-8 is the order of the runes.
unfoldable pub text_less : Text → Text → Bool
text_less xs [] = false
text_less [] (y ∷ ys) = true
text_less (x ∷ xs) (y ∷ ys) = ltb x y || (x == y && text_less xs ys)

unfoldable pub insert_text : Text → List Text → List Text
unfolding text_less
insert_text x [] = x ∷ []
insert_text x (y ∷ ys) = if text_less y x then y ∷ insert_text x ys else x ∷ y ∷ ys

-- sort.Strings
unfoldable pub sort_texts : List Text → List Text
unfolding insert_text
sort_texts [] = []
sort_texts (x ∷ xs) = insert_text x (sort_texts xs)
