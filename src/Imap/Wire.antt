-- ===== src/Imap/Wire.antt =====
-- internal/imapadapter/adapter.go: the raw connection, rawIMAPConn, and what SearchAllowed does with it.
use ksuite_mail.Common.{
  ℕ, ◌+◌, Bool, true, false, ◌||◌, Option, none, some, List, [], ◌∷◌, ◌++◌, Result, ok, err, ltb,
  ◌==◌, if◌then◌else◌, Text, codes, same, drop, length,
}
use ksuite_mail.Strings.{Platform, has_prefix, contains, to_lower, to_upper, trim_space, join}
use ksuite_mail.Mail.{Account, UidRange, decimal}
use ksuite_mail.Actions.{Action, pure, raise, ◌>>=◌, ◌>>◌}
use ksuite_mail.Refresh.Source.{SourceError, deadline_exceeded, source_unavailable}
use ksuite_mail.Imap.Quoting.{quote_imap_string}
use ksuite_mail.Imap.Ranges.{uid_range_set}
use ksuite_mail.Imap.Search.{first_field, parse_search_uids}

-- An error as normalizeCommandError sees it: what errors.Is tells of it, whether it is a net.Error of a
-- timeout, and its text.
pub record CommandError : Type 0 where
  pub kind : SourceError
  pub timed_out : Bool
  pub text : Text

abbrev is_deadline : SourceError → Bool
is_deadline SourceError.deadline_exceeded = true
is_deadline SourceError.canceled = false
is_deadline SourceError.source_unavailable = false
is_deadline SourceError.permission_denied = false
is_deadline SourceError.other_error = false

-- normalizeCommandError
unfoldable pub normalize_command_error : Platform → CommandError → SourceError
normalize_command_error p e =
    if is_deadline e.kind || e.timed_out || contains (to_lower p e.text) (codes "i/o timeout")
    then deadline_exceeded
    else e.kind

abbrev pub unavailable : CommandError
unavailable = record { kind = source_unavailable; timed_out = false; text = [] }

-- `incoming` is what the reads of a line return, one after the other, up to its line feed, and io.EOF
-- after the last. `sent` is what was flushed, and `write_error` the error of a write or a flush, if the
-- peer no longer takes them.
pub record Wire : Type 0 where
  pub incoming : List (Result CommandError Text)
  pub sent : List Text
  pub tag : ℕ
  pub write_error : Option CommandError
  pub eof : CommandError

abbrev pub Dialogue : Type 0 → Type 0
Dialogue A = Action Wire CommandError A

-- strings.TrimRight(line, "\r\n")
abbrev cons_unless_break : ℕ → Text → Text
cons_unless_break r [] = if r == 0x0d || r == 0x0a then [] else r ∷ []
cons_unless_break r (x ∷ xs) = r ∷ x ∷ xs

unfoldable pub trim_breaks : Text → Text
trim_breaks [] = []
trim_breaks (r ∷ rs) = cons_unless_break r (trim_breaks rs)

abbrev trimmed : Result CommandError Text → Result CommandError Text
trimmed (ok line) = ok (trim_breaks line)
trimmed (err e) = err e

abbrev pub read_from : List (Result CommandError Text) → Wire → Result CommandError Text × Wire
read_from [] w = (err w.eof, w)
read_from (r ∷ rs) w = (trimmed r, record w { incoming = rs })

unfoldable pub read_line : Dialogue Text
unfolding trim_breaks
read_line w = read_from w.incoming w

-- readGreeting
unfoldable pub read_greeting : Platform → Dialogue (Unit {0})
unfolding ◌>>=◌ read_line
read_greeting p = do
  line ← read_line
  if has_prefix (to_upper p line) (codes "* OK") || has_prefix (to_upper p line) (codes "* PREAUTH")
      then pure tt
      else raise unavailable

-- fmt.Sprintf("A%04d", n)
unfoldable pub pad_left : ℕ → Text → Text
pad_left n digits = elim (ltb (length digits) n) [
  | true ↦ drop (length digits) (codes "0000") ++ digits
  | false ↦ digits
]

unfoldable pub tag_text : ℕ → Text
unfolding pad_left
tag_text n = b'A' ∷ pad_left 4 (decimal n)

abbrev with_arguments : Text → List Text → Text
with_arguments line [] = line
with_arguments line (a ∷ rest) = line ++ (b' ' ∷ join (codes " ") (a ∷ rest))

-- The text of a command, with its line end.
unfoldable pub command_line : Text → Text → List Text → Text
unfolding join
command_line tag name arguments =
    with_arguments (tag ++ (b' ' ∷ name)) arguments ++ (0x0d ∷ 0x0a ∷ [])

abbrev pub write_unless : Option CommandError → Text → Dialogue (Unit {0})
write_unless (some e) line w = (err e, w)
write_unless none line w = (ok tt, record w { sent = w.sent ++ (line ∷ []) })

unfoldable pub write_line : Text → Dialogue (Unit {0})
write_line line w = write_unless w.write_error line w

-- The reply behind a tag.
abbrev completed : Platform → Text → List Text → Text → Result CommandError (List Text)
completed p tag untagged resp =
    if same (to_upper p (first_field (trim_space (drop (length tag) resp)))) (codes "OK")
    then ok untagged
    else err unavailable

-- The loop of `command`, over the lines to come: it ends with the reply behind the tag, or with an
-- error of a read.
unfoldable pub replies :
    Platform
    → Text
    → CommandError
    → List Text
    → List (Result CommandError Text)
    → Result CommandError (List Text) × List (Result CommandError Text)
unfolding trim_breaks
replies p tag eof untagged [] = (err eof, [])
replies p tag eof untagged (err e ∷ rest) = (err e, rest)
replies p tag eof untagged (ok line ∷ rest) =
    let resp = trim_breaks line in
    let more =
      replies p tag eof (if has_prefix resp (codes "* ") then untagged ++ (resp ∷ []) else untagged)
        rest in
    if has_prefix resp (codes "* ")
    then more
    else if has_prefix resp (tag ++ codes " ")
    then (completed p tag untagged resp, rest)
    else more

abbrev pub read_replies : Platform → Text → Result CommandError (Unit {0}) → Dialogue (List Text)
read_replies p tag (err e) w = (err e, w)
read_replies p tag (ok _) w =
    let (result, rest) = replies p tag w.eof [] w.incoming in (result, record w { incoming = rest })

-- command
unfoldable pub command : Platform → Text → List Text → Dialogue (List Text)
command p name arguments w =
    let tag = tag_text (w.tag + 1) in
    let (written, w') =
      write_line (command_line tag name arguments) (record w { tag = w.tag + 1 }) in
    read_replies p tag written w'

-- commandOK
unfoldable pub command_ok : Platform → Text → List Text → Dialogue (Unit {0})
command_ok p name arguments = command p name arguments >> pure tt

module _ (p : Platform) (range_text : ℕ × ℕ → Text) where
  abbrev pub range_arguments : Option (ℕ × ℕ) → List Text
  range_arguments none = []
  range_arguments (some set) = codes "UID" ∷ range_text set ∷ []

  -- uidSearchHeader, where `range_text` is the String of a UID set of go-imap.
  unfoldable pub uid_search_header : Text → Text → UidRange → Dialogue (List ℕ)
  uid_search_header header value scope = do
    lines ← command p (codes "UID") (
        codes "SEARCH"
        ∷ (range_arguments (uid_range_set scope)
            ++ (codes "HEADER" ∷ quote_imap_string header ∷ quote_imap_string value ∷ [])))
    pure (parse_search_uids p lines)

  -- connectRaw, past the dialling, and SearchAllowed: the dialogue on the raw connection.
  unfoldable pub raw_search : Account → Text → Text → Text → Text → UidRange → Dialogue (List ℕ)
  raw_search acct pass folder header value scope = do
    read_greeting p
    command_ok p (codes "LOGIN") (quote_imap_string acct.username ∷ quote_imap_string pass ∷ [])
    command_ok p (codes "EXAMINE") (quote_imap_string folder ∷ [])
    uid_search_header header value scope
