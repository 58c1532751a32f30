-- ===== src/Tests/Remote.antt =====
-- Runs of the IMAP adapter, and of what it parses and prints.
use ksuite_mail.Common.{
  ℕ, ◌+◌, ◌^◌, ◌≤◌, ◌<◌, ◌≡◌, refl, Bool, true, false, Option, none, some, List, [], ◌∷◌, ◌++◌,
  Result, ok, err, arith, All, Text, codes,
}
use ksuite_mail.Common.Ints.{pos}
use ksuite_mail.Mail.{UidRange}
use ksuite_mail.Secrets.{Store, unsafe_permissions, load}
use ksuite_mail.Secrets.Loaded.{IsPrivate, IsStoreOf, load-IsStoreOf}
use ksuite_mail.Cache.Contents.{content}
use ksuite_mail.Refresh.Source.{canceled}
use ksuite_mail.Refresh.Cycle.{refresh}
use ksuite_mail.Refresh.Cleared.{IsKnown}
use ksuite_mail.Refresh.Uids.{dedupe_uids}
use ksuite_mail.Imap.Quoting.{quote_imap_string, read_quoted, read_quoted-quote_imap_string}
use ksuite_mail.Imap.Ranges.{set_deadline, effective_timeout, WithinContext, set_deadline_bounds}
use ksuite_mail.Imap.Search.{parse_search_uids}
use ksuite_mail.Imap.Wire.{CommandError, Wire, command, command_line, tag_text, raw_search}
use ksuite_mail.Imap.Sessions.{Client}
use ksuite_mail.Imap.Methods.{live_source}
use ksuite_mail.Imap.Calls.{capabilities, fetch_body_preview, after_calls}
use ksuite_mail.Imap.Conduct.{Reaches, idle, after_calls-Reaches}
use ksuite_mail.Imap.Composed.{refresh-IsKnown}
use ksuite_mail.Imap.Spoken.{command_lem}
use ksuite_mail.Imap.Injection.{AllCommands, raw_search-AllCommands}
use ksuite_mail.Imap.Found.{search_reply, parse_search_uids-search_reply}
use ksuite_mail.Tests.Data.{account, platform, config, options, filled, secrets}

abbrev client : Client
client = record {
  dialled = λ h. ok tt;
  logged_in = λ h. ok tt;
  capabilities = λ h. ok (codes "IMAP4REV1" ∷ []);
  has_condstore = λ caps. false;
  listed = λ h. ok (codes "INBOX" ∷ []);
  selected = λ h. ok (record { uidvalidity = 1; uidnext = 3; highest_mod_seq = pos 0 });
  searched = λ h. ok (1 ∷ 2 ∷ []);
  flags = λ h. ok ([] ∷ []);
  bodies = λ h. ok (codes "hello" ∷ []);
}

abbrev eof : CommandError
eof = record { kind = canceled; timed_out = false; text = codes "EOF" }

-- The server's side of a search that finds two messages.
abbrev wire : Wire
wire = record {
  incoming =
      ok (codes "* OK hello")
      ∷ ok (codes "A0001 OK")
      ∷ ok (codes "A0002 OK")
      ∷ ok (codes "* SEARCH 7 9")
      ∷ ok (codes "A0003 OK")
      ∷ [];
  sent = [];
  tag = 0;
  write_error = none;
  eof = eof;
}

abbrev all_uids : UidRange
all_uids = record { min = 0; max = 0 }

after_calls-Reaches_example :
    Reaches secrets client
      (after_calls platform secrets client
        (capabilities account ∷ fetch_body_preview account (codes "INBOX") 1 100 ∷ [])
        [])
      idle
after_calls-Reaches_example =
    after_calls-Reaches platform secrets client
      (capabilities account ∷ fetch_body_preview account (codes "INBOX") 1 100 ∷ [])

raw_search-AllCommands_example :
    AllCommands
      (raw_search platform
        (λ set. codes "1:*")
        account
        (codes "pw")
        (codes "INBOX")
        (codes "FROM")
        (0x0d ∷ 0x0a ∷ codes "A0003 DELETE INBOX")
        all_uids
        wire).1
raw_search-AllCommands_example =
    raw_search-AllCommands platform (λ set. codes "1:*") (λ set. refl) account (codes "pw")
      (codes "INBOX") (codes "FROM") (0x0d ∷ 0x0a ∷ codes "A0003 DELETE INBOX") all_uids wire tt

refresh-IsKnown_example :
    All
      (λ row. IsKnown filled.tables.messages (content row))
      (refresh platform config
        (some (live_source platform secrets client (λ set. codes "1:*") (λ a f h v s. wire)))
        options
        filled).1.tables.messages
refresh-IsKnown_example =
    refresh-IsKnown platform secrets client (λ set. codes "1:*") (λ a f h v s. wire) config options
      filled

parse_search_uids-search_reply_example :
    parse_search_uids platform (search_reply (9 ∷ 7 ∷ []) ∷ search_reply (7 ∷ []) ∷ [])
    ≡ dedupe_uids (9 ∷ 7 ∷ 7 ∷ [])
parse_search_uids-search_reply_example =
    parse_search_uids-search_reply platform refl ((9 ∷ 7 ∷ []) ∷ (7 ∷ []) ∷ []) (
      ((omega arith, omega arith), ((omega arith, omega arith), tt)),
      (((omega arith, omega arith), tt), tt),
    )

read_quoted-quote_imap_string_example :
    read_quoted (quote_imap_string (codes "a\"b" ++ (0x0a ∷ [])) ++ codes " x")
    ≡ some (codes "a\"b", codes " x")
read_quoted-quote_imap_string_example =
    read_quoted-quote_imap_string (codes "a\"b" ++ (0x0a ∷ [])) (codes " x")

command_lem_example :
    command platform (codes "NOOP") [] (record wire {
      incoming = ok (codes "* 1 EXISTS") ∷ ok (codes "A0001 OK") ∷ ok (codes "* BYE") ∷ [];
    })
    ≡ (
      ok (codes "* 1 EXISTS" ∷ []),
      record wire {
        incoming = ok (codes "* BYE") ∷ [];
        sent = (codes "A0001 NOOP" ++ (0x0d ∷ 0x0a ∷ [])) ∷ [];
        tag = 1;
      },
    )
unfolding ksuite_mail.Strings.has_prefix ksuite_mail.Imap.Wire.trim_breaks tag_text
    ksuite_mail.Mail.decimal ksuite_mail.Common.same command_line
    ksuite_mail.Imap.Search.first_field ksuite_mail.Strings.fields_from
    ksuite_mail.Strings.trim_space ksuite_mail.Strings.trim_right ksuite_mail.Strings.trim_left
    ksuite_mail.Strings.is_space
command_lem_example =
    command_lem platform (codes "NOOP") []
      (record wire {
        incoming = ok (codes "* 1 EXISTS") ∷ ok (codes "A0001 OK") ∷ ok (codes "* BYE") ∷ [];
      })
      ((true, codes "* 1 EXISTS") ∷ []) (codes "A0001 OK") (ok (codes "* BYE") ∷ []) refl refl
      (refl, tt) refl refl

set_deadline_bounds_example :
    let d = set_deadline 5 (pos 10) (some 12) 20 in
    (0 < d) × (d ≤ 5 + effective_timeout (pos 10)) × WithinContext d (some 12)
set_deadline_bounds_example = set_deadline_bounds 5 (pos 10) (some 12) 20 (omega arith)

load-IsStoreOf_example :
    ((s : Store)
      → (load secrets ≡ ok s → IsStoreOf secrets s) × (IsStoreOf secrets s → load secrets ≡ ok s))
    × ((mode : ℕ)
        → secrets.mode ≡ ok mode
        → ¬ IsPrivate mode
        → load secrets ≡ err unsafe_permissions)
load-IsStoreOf_example = load-IsStoreOf secrets
