-- ===== src/Tests/Refreshing.antt =====
-- Runs of the refresh and of the cache.
use ksuite_mail.Common.{
  ℕ, ◌≤◌, ◌≡◌, refl, ◌⊎◌, Bool, true, false, Option, none, some, List, [], ◌∷◌, Result, ok, err,
  arith, if◌then◌else◌, All, Text, codes, same,
}
use ksuite_mail.Common.Ints.{pos}
use ksuite_mail.Mail.{CachedMessage}
use ksuite_mail.Cache.Tables.{fault}
use ksuite_mail.Cache.Session.{Repository}
use ksuite_mail.Cache.Writes.{stamped, upsert_message}
use ksuite_mail.Cache.Consistent.{IsConsistent}
use ksuite_mail.Cache.Contents.{content}
use ksuite_mail.Cache.History.{
  upsert, mark_folder, delete_ref, expire, Write, run, run-IsConsistent,
}
use ksuite_mail.Cache.Trips.{found_at, upsert_message-found, upsert_message-err}
use ksuite_mail.Refresh.Cycle.{refresh, RefreshResult}
use ksuite_mail.Refresh.Content.{truncate_text_bytes}
use ksuite_mail.Refresh.Truncated.{IsCut, truncate_text_bytes-IsCut}
use ksuite_mail.Refresh.Uids.{CandidateDiscovery, dedupe_uids}
use ksuite_mail.Refresh.Discovered.{IsDiscovery, discover_candidates-IsDiscovery}
use ksuite_mail.Refresh.Deduped.{Ascending, dedupe_uids-Ascending}
use ksuite_mail.Cache.Writes.{has_uid}
use ksuite_mail.Refresh.Reported.{IsReported, refresh-IsReported}
use ksuite_mail.Refresh.Whole.{refresh-IsConsistent}
use ksuite_mail.Refresh.Cleared.{IsKnown, IsApproved, refresh-IsApproved}
use ksuite_mail.Tests.Data.{account, platform, config, mailbox, options, repository, message, other}

empty-IsConsistent : IsConsistent (repository.tables)
empty-IsConsistent = record {
  indexed = λ k. refl;
  unique = λ k. omega arith;
  addressed = λ m. omega arith;
}

-- One of the two messages is stored, with its reason.
refresh_stores :
    (refresh platform config (some mailbox) options repository).1.tables.messages
    ≡ record message {
      id = codes "msg_work|INBOX|1|1";
      body_text = codes "hello";
      visible_reason = codes "from:a.ch";
      first_loaded_at = 10;
      last_loaded_or_checked = 10;
    }
      ∷ []
unfolding ksuite_mail.Common.same ksuite_mail.Common.contains_text ksuite_mail.Strings.byte_len
    ksuite_mail.Strings.is_space ksuite_mail.Strings.trim_left ksuite_mail.Strings.trim_right
    ksuite_mail.Strings.fields_from ksuite_mail.Strings.after_last
    ksuite_mail.Policy.split_addresses ksuite_mail.Policy.address_domain
    ksuite_mail.Policy.normalize ksuite_mail.Policy.match_addresses ksuite_mail.Policy.exact_match
    ksuite_mail.Policy.domain_rule ksuite_mail.Policy.domain_match ksuite_mail.Cache.Session.exec
    ksuite_mail.Cache.Session.query ksuite_mail.Cache.Reads.list_uids_for_folder
    ksuite_mail.Cache.Reads.folder_state ksuite_mail.Cache.Writes.upsert_message
    ksuite_mail.Cache.Writes.mark_folder_verified ksuite_mail.Cache.Writes.delete_missing_by_uid_set
    ksuite_mail.Cache.Writes.upsert_folder_state ksuite_mail.Actions.with_error
    ksuite_mail.Refresh.Discover.discover_candidates ksuite_mail.Refresh.Folder.is_unchanged
    ksuite_mail.Refresh.Folder.to_cached ksuite_mail.Refresh.Folder.refresh_folder
    ksuite_mail.Refresh.Content.is_reply_boundary ksuite_mail.Refresh.Cycle.refresh
    ksuite_mail.Mail.public_id
refresh_stores = refl

refresh-IsApproved_example :
    All
      (λ row. IsKnown [] (content row) ⊎ IsApproved platform mailbox config (content row))
      (refresh platform config (some mailbox) options repository).1.tables.messages
refresh-IsApproved_example = refresh-IsApproved platform config mailbox options repository

refresh-IsConsistent_example :
    IsConsistent (refresh platform config (some mailbox) options repository).1.tables
refresh-IsConsistent_example =
    refresh-IsConsistent platform config mailbox options repository empty-IsConsistent

abbrev writes : List Write
writes =
    upsert message
    ∷ upsert other
    ∷ mark_folder (codes "work") (codes "INBOX") 1 8
    ∷ delete_ref (codes "work") (codes "INBOX") 2
    ∷ expire (pos 1)
    ∷ []

run-IsConsistent_example : IsConsistent (run writes repository).tables
run-IsConsistent_example = run-IsConsistent writes repository empty-IsConsistent

upsert_message-found_example :
    found_at (codes "m") (upsert_message message repository).1.tables.messages
    ≡ some (stamped 10 message)
unfolding ksuite_mail.Common.same ksuite_mail.Cache.Session.exec
    ksuite_mail.Cache.Writes.upsert_message
upsert_message-found_example = upsert_message-found message (codes "m") repository tt refl

-- The third call of the driver fails.
abbrev failing : Repository
failing = record repository { faults = false ∷ false ∷ true ∷ [] }

upsert_message-err_example : (upsert_message message failing).1.tables ≡ failing.tables
unfolding ksuite_mail.Cache.Session.exec ksuite_mail.Cache.Writes.upsert_message
upsert_message-err_example = upsert_message-err message failing fault refl

truncate_text_bytes-IsCut_example : IsCut 4 (codes "aéüx") (truncate_text_bytes (codes "aéüx") 4)
truncate_text_bytes-IsCut_example = truncate_text_bytes-IsCut (codes "aéüx") 4

abbrev discovery : CandidateDiscovery
discovery = record {
  uids = 1 ∷ 2 ∷ [];
  scope = record { min = 3; max = 5 };
  complete = false;
  use_scope_bounds = true;
}

discover_candidates-IsDiscovery_example : IsDiscovery 2 discovery
unfolding ksuite_mail.Common.same ksuite_mail.Strings.trim_right ksuite_mail.Strings.trim_left
    ksuite_mail.Strings.is_space ksuite_mail.Refresh.Uids.sort_uids
    ksuite_mail.Refresh.Uids.unique_from ksuite_mail.Refresh.Discover.discover_candidates
    ksuite_mail.Strings.trim_space
discover_candidates-IsDiscovery_example =
    discover_candidates-IsDiscovery platform mailbox account (codes "INBOX") 5 2 discovery refl

dedupe_uids-Ascending_example :
    Ascending (dedupe_uids (3 ∷ 1 ∷ 3 ∷ []))
    × ((w : ℕ) → has_uid (dedupe_uids (3 ∷ 1 ∷ 3 ∷ [])) w ≡ has_uid (3 ∷ 1 ∷ 3 ∷ []) w)
dedupe_uids-Ascending_example = dedupe_uids-Ascending (3 ∷ 1 ∷ 3 ∷ [])

abbrev refreshed : RefreshResult
refreshed = record {
  meta = record { attempted = true; remote_ok = true; last_successful_refresh_at = some 10 };
  warnings = [];
  partial = false;
}

refresh-IsReported_example : IsReported refreshed
unfolding ksuite_mail.Common.same ksuite_mail.Common.contains_text ksuite_mail.Strings.byte_len
    ksuite_mail.Strings.is_space ksuite_mail.Strings.trim_left ksuite_mail.Strings.trim_right
    ksuite_mail.Strings.fields_from ksuite_mail.Strings.after_last
    ksuite_mail.Policy.split_addresses ksuite_mail.Policy.address_domain
    ksuite_mail.Policy.normalize ksuite_mail.Policy.match_addresses ksuite_mail.Policy.exact_match
    ksuite_mail.Policy.domain_rule ksuite_mail.Policy.domain_match ksuite_mail.Cache.Session.exec
    ksuite_mail.Cache.Session.query ksuite_mail.Cache.Reads.list_uids_for_folder
    ksuite_mail.Cache.Reads.folder_state ksuite_mail.Cache.Writes.upsert_message
    ksuite_mail.Cache.Writes.mark_folder_verified ksuite_mail.Cache.Writes.delete_missing_by_uid_set
    ksuite_mail.Cache.Writes.upsert_folder_state ksuite_mail.Actions.with_error
    ksuite_mail.Refresh.Discover.discover_candidates ksuite_mail.Refresh.Folder.is_unchanged
    ksuite_mail.Refresh.Folder.to_cached ksuite_mail.Refresh.Folder.refresh_folder
    ksuite_mail.Refresh.Content.is_reply_boundary ksuite_mail.Refresh.Cycle.refresh
    ksuite_mail.Mail.public_id
refresh-IsReported_example =
    refresh-IsReported platform config (some mailbox) options repository refreshed refl
