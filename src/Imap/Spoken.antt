-- ===== src/Imap/Spoken.antt =====
-- internal/imapadapter/adapter.go: what the raw connection sends, and how it reads the replies.
use ksuite_mail.Common.{
  ◌+◌, ◌≡◌, refl, ap, ◌∙◌, Bool, true, false, none, List, [], ◌∷◌, ◌++◌, Result, ok, err,
  if◌then◌else◌, Text, codes, drop, length, same,
}
use mathlib.Core.List.{append_assoc, append-nil}
use ksuite_mail.Strings.{Platform, has_prefix, to_upper, trim_space}
use ksuite_mail.Imap.Wire.{
  CommandError, unavailable, Wire, trim_breaks, replies, command_line, command, write_line,
  tag_text,
}
use ksuite_mail.Imap.Search.{first_field}

-- A line of the server that is about no command: what is read of it begins with a star.
abbrev pub IsUntagged : Text → Type 0
IsUntagged line = has_prefix (trim_breaks line) (codes "* ") ≡ true

-- A line that is neither untagged nor behind the tag.
abbrev pub IsOther : Text → Text → Type 0
IsOther tag line =
    (has_prefix (trim_breaks line) (codes "* ") ≡ false)
    × (has_prefix (trim_breaks line) (tag ++ codes " ") ≡ false)

-- The lines before the reply of a command, each with whether it is untagged.
abbrev pub Lines : Type 0
Lines = List (Bool × Text)

abbrev pub Tells : Text → Bool × Text → Type 0
Tells tag (true, line) = IsUntagged line
Tells tag (false, line) = IsOther tag line

abbrev pub AllTell : Text → Lines → Type 0
AllTell tag [] = Unit {0}
AllTell tag (l ∷ ls) = Tells tag l × AllTell tag ls

abbrev pub received : Lines → List (Result CommandError Text)
received [] = []
received ((b, line) ∷ ls) = ok line ∷ received ls

abbrev pub untagged_of : Lines → List Text
untagged_of [] = []
untagged_of ((true, line) ∷ ls) = trim_breaks line ∷ untagged_of ls
untagged_of ((false, line) ∷ ls) = untagged_of ls

-- What the reply behind the tag makes of a command.
abbrev pub outcome : Platform → Text → Text → List Text → Result CommandError (List Text)
outcome p tag line untagged =
    if same (to_upper p (first_field (trim_space (drop (length tag) (trim_breaks line)))))
      (codes "OK")
    then ok untagged
    else err unavailable

module _ (p : Platform) (tag : Text) (eof : CommandError) where
  abbrev Reply : Type 0
  Reply = Result CommandError (List Text) × List (Result CommandError Text)

  replies_before :
      (seen : List Text) (ls : Lines) (rest : List (Result CommandError Text))
      → AllTell tag ls
      → replies p tag eof seen (received ls ++ rest)
        ≡ replies p tag eof (seen ++ untagged_of ls) rest
  unfolding replies
  replies_before seen [] rest h = rw (append-nil) refl
  replies_before seen ((true, line) ∷ ls) rest (u, h) = rw u (
      replies_before (seen ++ (trim_breaks line ∷ [])) ls rest h
      ∙ ap (λ l. replies p tag eof l rest) (append_assoc seen _ _))
  replies_before seen ((false, line) ∷ ls) rest ((u, t), h) =
      rw (u, t) (replies_before seen ls rest h)

  replies_at :
      (seen : List Text) (line : Text) (rest : List (Result CommandError Text))
      → has_prefix (trim_breaks line) (codes "* ") ≡ false
      → has_prefix (trim_breaks line) (tag ++ codes " ") ≡ true
      → replies p tag eof seen (ok line ∷ rest) ≡ (outcome p tag line seen, rest)
  unfolding replies
  replies_at seen line rest u t = rw (u, t)

-- A command that can be written sends its line, and reads up to the reply behind its tag: where that
-- says OK, the result is the untagged lines before it, in order and without their line ends, and where
-- not, an error. Lines that are neither are passed over, and what follows is left.
pub command_lem :
    (p : Platform) (name : Text) (arguments : List Text) (w : Wire) (ls : Lines) (line : Text)
    (rest : List (Result CommandError Text))
    → w.write_error ≡ none
    → w.incoming ≡ received ls ++ (ok line ∷ rest)
    → AllTell (tag_text (w.tag + 1)) ls
    → has_prefix (trim_breaks line) (codes "* ") ≡ false
    → has_prefix (trim_breaks line) (tag_text (w.tag + 1) ++ codes " ") ≡ true
    → command p name arguments w ≡ (
      outcome p (tag_text (w.tag + 1)) line (untagged_of ls),
      record w {
        incoming = rest;
        sent = w.sent ++ (command_line (tag_text (w.tag + 1)) name arguments ∷ []);
        tag = w.tag + 1;
      },
    )
unfolding command write_line
command_lem p name arguments w ls line rest e i h u t =
    let tag = tag_text (w.tag + 1) in
    rw
      (
        e,
        i,
        replies_before p tag w.eof [] ls (ok line ∷ rest) h,
        replies_at p tag w.eof (untagged_of ls) line rest u t,
      )
      refl
