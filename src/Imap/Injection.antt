-- ===== src/Imap/Injection.antt =====
-- internal/imapadapter/adapter.go: no value makes the raw connection send another command.
use ksuite_mail.Common.{
  ℕ, zero, suc, ◌+◌, ◌<◌, ◌≡◌, refl, Bool, true, false, Option, none, some, List, [], ◌∷◌, ◌++◌,
  Result, ok, err, Text, codes, any, drop, length, arith, All, ltb,
}
use ksuite_mail.Strings.{Platform, join}
use ksuite_mail.Mail.{Account, UidRange, decimal}
use ksuite_mail.Mail.Decimals.{any-decimal}
use ksuite_mail.Actions.Keeps.{Keeps, Keeps-pure, Keeps-raise, Keeps-if, Keeps-bind, Keeps-then}
use ksuite_mail.Imap.Quoting.{quote_imap_string, quote_runes, is_break, quote_runes_line}
use ksuite_mail.Imap.Ranges.{uid_range_set}
use ksuite_mail.Imap.Wire.{
  CommandError, Wire, command_line, command, command_ok, write_line, write_unless, read_from,
  read_replies, tag_text, pad_left, read_line, read_greeting, uid_search_header, raw_search,
  range_arguments,
}

-- A text on one line.
abbrev pub IsOneLine : Text → Type 0
IsOneLine t = any is_break t ≡ false

-- One line with its end.
abbrev pub IsCommand : Text → Type 0
IsCommand t = (line : Text) × IsOneLine line × (t ≡ line ++ (0x0d ∷ 0x0a ∷ []))

append-IsOneLine : (s t : Text) → IsOneLine s → IsOneLine t → IsOneLine (s ++ t)
append-IsOneLine [] t hs ht = ht
append-IsOneLine (r ∷ rs) t hs ht = ground (arith, append-IsOneLine rs t)

drop-IsOneLine : (n : ℕ) (t : Text) → IsOneLine t → IsOneLine (drop n t)
drop-IsOneLine zero t h = h
drop-IsOneLine (suc n) [] h = h
drop-IsOneLine (suc n) (r ∷ rs) h = drop-IsOneLine n rs (ground arith)

quote_imap_string-IsOneLine : (value : Text) → IsOneLine (quote_imap_string value)
unfolding quote_imap_string
quote_imap_string-IsOneLine value =
    append-IsOneLine (quote_runes value) (0x22 ∷ []) (quote_runes_line value) refl

break_is_no_digit : (j : ℕ) → j < 10 → is_break (b'0' + j) ≡ false
break_is_no_digit j h = ground arith

pad_left-IsOneLine : (n : ℕ) (t : Text) → IsOneLine t → IsOneLine (pad_left n t)
unfolding pad_left
pad_left-IsOneLine n t h = padded (ltb (length t) n)
  where
    padded :
        (b : Bool) → IsOneLine (elim b [ true ↦ drop (length t) (codes "0000") ++ t | false ↦ t ])
    padded true =
        append-IsOneLine (drop (length t) (codes "0000")) t (drop-IsOneLine (length t) _ refl) h
    padded false = h

tag_text-IsOneLine : (n : ℕ) → IsOneLine (tag_text n)
unfolding tag_text
tag_text-IsOneLine n =
    ground (arith, pad_left-IsOneLine 4 (decimal n) (any-decimal is_break break_is_no_digit n))

join-IsOneLine : (ls : List Text) → All IsOneLine ls → IsOneLine (join (codes " ") ls)
unfolding join
join-IsOneLine [] h = refl
join-IsOneLine (l ∷ []) (h, _) = h
join-IsOneLine (l ∷ m ∷ ms) (h, hs) =
    append-IsOneLine (l ++ codes " ") (join (codes " ") (m ∷ ms))
      (append-IsOneLine l (codes " ") h refl) (join-IsOneLine (m ∷ ms) hs)

command_line-IsCommand :
    (tag name : Text) (arguments : List Text)
    → IsOneLine tag
    → IsOneLine name
    → All IsOneLine arguments
    → IsCommand (command_line tag name arguments)
unfolding command_line
command_line-IsCommand tag name [] t n a =
    (tag ++ (b' ' ∷ name), append-IsOneLine tag (b' ' ∷ name) t n, refl)
command_line-IsCommand tag name (x ∷ xs) t n a = (
  (tag ++ (b' ' ∷ name)) ++ (b' ' ∷ join (codes " ") (x ∷ xs)),
  append-IsOneLine (tag ++ (b' ' ∷ name)) (b' ' ∷ join (codes " ") (x ∷ xs))
      (append-IsOneLine tag (b' ' ∷ name) t n) (join-IsOneLine (x ∷ xs) a),
  refl,
)

abbrev pub AllCommands : Wire → Type 0
AllCommands w = All IsCommand w.sent

All-snoc :
    (ts : List Text) (t : Text) → All IsCommand ts → IsCommand t → All IsCommand (ts ++ (t ∷ []))
All-snoc [] t h c = (c, tt)
All-snoc (x ∷ xs) t (hx, hs) c = (hx, All-snoc xs t hs c)

write_unless-AllCommands :
    (o : Option CommandError) (line : Text) (w : Wire)
    → IsCommand line
    → AllCommands w
    → AllCommands (write_unless o line w).1
write_unless-AllCommands (some e) line w c h = h
write_unless-AllCommands none line w c h = All-snoc w.sent line h c

read_replies-AllCommands :
    (p : Platform) (tag : Text) (r : Result CommandError (Unit {0})) (w : Wire)
    → AllCommands w
    → AllCommands (read_replies p tag r w).1
read_replies-AllCommands p tag (err e) w h = h
read_replies-AllCommands p tag (ok t) w h = h

read_line-AllCommands : Keeps AllCommands read_line
unfolding read_line
read_line-AllCommands = record { at = λ w h. reads w w.incoming h }
  where
    reads :
        (w : Wire) (ls : List (Result CommandError Text))
        → AllCommands w
        → AllCommands (read_from ls w).1
    reads w [] h = h
    reads w (r ∷ rs) h = h

module _ (p : Platform) where
  command-AllCommands :
      (name : Text) (arguments : List Text)
      → IsOneLine name
      → All IsOneLine arguments
      → Keeps AllCommands (command p name arguments)
  unfolding command write_line
  command-AllCommands name arguments n a = record {
    at = λ w h. read_replies-AllCommands p _ _ _ (
        write_unless-AllCommands w.write_error _ (record w { tag = w.tag + 1 })
          (command_line-IsCommand (tag_text (w.tag + 1)) name arguments
            (tag_text-IsOneLine (w.tag + 1)) n a)
          h);
  }

  command_ok-AllCommands :
      (name : Text) (arguments : List Text)
      → IsOneLine name
      → All IsOneLine arguments
      → Keeps AllCommands (command_ok p name arguments)
  unfolding command_ok
  command_ok-AllCommands name arguments n a =
      Keeps-then _ _ (command-AllCommands name arguments n a) (Keeps-pure tt)

  read_greeting-AllCommands : Keeps AllCommands (read_greeting p)
  unfolding read_greeting
  read_greeting-AllCommands =
      Keeps-bind _ _ read_line-AllCommands λ line. Keeps-if _ _ _ (Keeps-pure tt) (Keeps-raise _)

  module _ (range_text : ℕ × ℕ → Text) (one_line : (set : ℕ × ℕ) → IsOneLine (range_text set)) where
    range_arguments-IsOneLine :
        (o : Option (ℕ × ℕ)) (rest : List Text)
        → All IsOneLine rest
        → All IsOneLine (range_arguments p range_text o ++ rest)
    range_arguments-IsOneLine none rest h = h
    range_arguments-IsOneLine (some set) rest h = (refl, (one_line set, h))

    uid_search_header-AllCommands :
        (header value : Text) (scope : UidRange)
        → Keeps AllCommands (uid_search_header p range_text header value scope)
    unfolding uid_search_header
    uid_search_header-AllCommands header value scope =
        Keeps-bind _ _
          (command-AllCommands (codes "UID") _ refl (
            refl,
            range_arguments-IsOneLine (uid_range_set scope) _ (
              refl,
              (quote_imap_string-IsOneLine header, (quote_imap_string-IsOneLine value, tt)),
            ),
          ))
          λ lines. Keeps-pure _

    -- Whatever the user name, the password, the folder and the searched value are, and whatever the
    -- server sends, each text that a search writes to its connection is one line with its end, so it is
    -- one command: no value with a line break in it adds another. The texts of UID sets, which go-imap
    -- makes, have no line break.
    pub raw_search-AllCommands :
        (acct : Account) (pass folder header value : Text) (scope : UidRange) (w : Wire)
        → AllCommands w
        → AllCommands (raw_search p range_text acct pass folder header value scope w).1
    unfolding raw_search
    raw_search-AllCommands acct pass folder header value scope w h =
        (Keeps-then _ _ read_greeting-AllCommands (
            Keeps-then _ _
              (command_ok-AllCommands (codes "LOGIN") _ refl
                (quote_imap_string-IsOneLine acct.username, (quote_imap_string-IsOneLine pass, tt)))
              (Keeps-then _ _
                (command_ok-AllCommands (codes "EXAMINE") _ refl
                  (quote_imap_string-IsOneLine folder, tt))
                (uid_search_header-AllCommands header value scope)))).at
          w h
