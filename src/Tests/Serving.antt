-- ===== src/Tests/Serving.antt =====
-- Runs of the read commands.
use ksuite_mail.Common.{
  ℕ, ◌≡◌, ◌≤◌, refl, Bool, true, false, not, ◌||◌, ◌⊎◌, In, Option, none, some, List, [], ◌∷◌, map,
  Result, ok, err, take, drop, retain, All, length, Text, codes, same, arith, if◌then◌else◌,
}
use ksuite_mail.Common.Ints.{pos}
use ksuite_mail.Strings.{is_empty}
use ksuite_mail.Mail.{Config, CachedMessage}
use ksuite_mail.Api.{
  status_error, Envelope, ListRequest, SearchRequest, ShowRequest, ContextRequest, ThreadRequest,
  ListResponse, ShowResponse, ContextResponse, ThreadResponse,
}
use ksuite_mail.Actions.{Action}
use ksuite_mail.Cache.Session.{Repository}
use ksuite_mail.Refresh.Cycle.{Warning}
use ksuite_mail.Daemon.Access.{cached_message_allowed, to_message_summary}
use ksuite_mail.Daemon.Paging.{
  visible_message_page, visible_thread_messages, bounded_thread_context, include_seed_message,
  has_message,
}
use ksuite_mail.Daemon.Listed.{
  rows_of, thread_rows, visible_message_page-list_messages,
  visible_thread_messages-thread_messages_loader,
}
use ksuite_mail.Cache.Reads.{list_messages}
use ksuite_mail.Daemon.Threads.{include_seed_message_lem}
use ksuite_mail.Daemon.Contexts.{snippet_bytes, bounded_thread_context_lem}
use ksuite_mail.Daemon.Scope.{refresh_affects_scope, warnings_for_scope, read_envelope_for_scope}
use ksuite_mail.Daemon.Affected.{refresh_affects_scope_lem}
use ksuite_mail.Daemon.Handlers.{
  handle_list, handle_search, handle_show, handle_thread, handle_context,
}
use ksuite_mail.Daemon.Replies.{filter_of, thread_messages_loader}
use ksuite_mail.Daemon.Shown.{Carries, ListsPermitted, handle_list-Allowed, handle_search-Allowed}
use ksuite_mail.Daemon.Showing.{ShowsSeed, handle_show-Allowed}
use ksuite_mail.Daemon.Threaded.{IsThread, handle_thread-Allowed}
use ksuite_mail.Daemon.Budget.{IsContext, handle_context-IsContext}
use ksuite_mail.Tests.Data.{platform, config, server, filled, message, other, value}

abbrev no_envelope : {R : Type 0} → Envelope R
no_envelope = record { status = status_error; result = none; warnings = []; error = none }

abbrev list_request : ListRequest
list_request = record { account = codes "ALL"; folder = []; limit = pos 0; offset = pos 0 }

abbrev listed : Envelope ListResponse
listed = value no_envelope (handle_list platform server true (ok list_request) filled).0

handle_list-Allowed_example :
    ListsPermitted platform server
      (handle_list platform server true (ok list_request) filled).1.tables
      (pos 0)
      listed
unfolding ksuite_mail.Common.same ksuite_mail.Common.contains_text ksuite_mail.Strings.is_space
    ksuite_mail.Strings.trim_left ksuite_mail.Strings.trim_right ksuite_mail.Strings.fields_from
    ksuite_mail.Strings.after_last ksuite_mail.Policy.split_addresses
    ksuite_mail.Policy.address_domain ksuite_mail.Policy.normalize
    ksuite_mail.Policy.match_addresses ksuite_mail.Policy.exact_match ksuite_mail.Policy.domain_rule
    ksuite_mail.Policy.domain_match ksuite_mail.Cache.Stamp.stamp ksuite_mail.Cache.Stamp.text_lt
    ksuite_mail.Cache.Session.query ksuite_mail.Daemon.Access.find_account
    ksuite_mail.Daemon.Access.cached_message_allowed_for_account
    ksuite_mail.Daemon.Access.cached_message_allowed ksuite_mail.Daemon.Handlers.handle_list
handle_list-Allowed_example =
    handle_list-Allowed platform server true list_request filled listed refl

abbrev search_request : SearchRequest
search_request = record {
  account = [];
  folder = [];
  query_text = codes "hi";
  limit = pos 5;
  offset = pos 0;
}

abbrev searched : Envelope ListResponse
searched = value no_envelope (handle_search platform server true (ok search_request) filled).0

handle_search-Allowed_example :
    ListsPermitted platform server
      (handle_search platform server true (ok search_request) filled).1.tables
      (pos 5)
      searched
unfolding ksuite_mail.Common.same ksuite_mail.Common.contains_text ksuite_mail.Strings.is_space
    ksuite_mail.Strings.trim_left ksuite_mail.Strings.trim_right ksuite_mail.Strings.fields_from
    ksuite_mail.Strings.after_last ksuite_mail.Policy.split_addresses
    ksuite_mail.Policy.address_domain ksuite_mail.Policy.normalize
    ksuite_mail.Policy.match_addresses ksuite_mail.Policy.exact_match ksuite_mail.Policy.domain_rule
    ksuite_mail.Policy.domain_match ksuite_mail.Cache.Stamp.stamp ksuite_mail.Cache.Stamp.text_lt
    ksuite_mail.Cache.Session.query ksuite_mail.Daemon.Access.find_account
    ksuite_mail.Daemon.Access.cached_message_allowed_for_account
    ksuite_mail.Daemon.Access.cached_message_allowed ksuite_mail.Daemon.Handlers.handle_search
handle_search-Allowed_example =
    handle_search-Allowed platform server true search_request filled searched refl

abbrev show_request : ShowRequest
show_request = record { id = codes "m"; preview = true; max_chars = pos 3 }

abbrev shown : Envelope ShowResponse
shown = value no_envelope (handle_show platform server true (ok show_request) filled).0

handle_show-Allowed_example :
    (cfg : Config) × (server.config ≡ ok cfg)
    × Carries
        (ShowsSeed platform server show_request cfg
          (handle_show platform server true (ok show_request) filled).1.tables)
        shown
unfolding ksuite_mail.Common.same ksuite_mail.Common.contains_text ksuite_mail.Strings.is_space
    ksuite_mail.Strings.trim_left ksuite_mail.Strings.trim_right ksuite_mail.Strings.fields_from
    ksuite_mail.Strings.after_last ksuite_mail.Policy.split_addresses
    ksuite_mail.Policy.address_domain ksuite_mail.Policy.normalize
    ksuite_mail.Policy.match_addresses ksuite_mail.Policy.exact_match ksuite_mail.Policy.domain_rule
    ksuite_mail.Policy.domain_match ksuite_mail.Cache.Stamp.stamp ksuite_mail.Cache.Stamp.text_lt
    ksuite_mail.Cache.Session.query ksuite_mail.Daemon.Access.find_account
    ksuite_mail.Daemon.Access.cached_message_allowed_for_account
    ksuite_mail.Daemon.Handlers.handle_show
handle_show-Allowed_example =
    handle_show-Allowed platform server true show_request filled shown refl

abbrev context_request : ContextRequest
context_request = record { id = codes "m"; budget = pos 20 }

abbrev contexts : Envelope ContextResponse
contexts = value no_envelope (handle_context platform server true (ok context_request) filled).0

handle_context-IsContext_example :
    (req : ContextRequest) × (cfg : Config) × (◌≡◌ {A = Result Text ContextRequest}
      (ok context_request)
      (ok req))
    × (server.config ≡ ok cfg)
    × Carries
        (IsContext platform server req.id cfg
          (handle_context platform server true (ok context_request) filled).1.tables)
        contexts
unfolding ksuite_mail.Common.same ksuite_mail.Common.contains_text ksuite_mail.Strings.is_space
    ksuite_mail.Strings.trim_left ksuite_mail.Strings.trim_right ksuite_mail.Strings.fields_from
    ksuite_mail.Strings.after_last ksuite_mail.Policy.split_addresses
    ksuite_mail.Policy.address_domain ksuite_mail.Policy.normalize
    ksuite_mail.Policy.match_addresses ksuite_mail.Policy.exact_match ksuite_mail.Policy.domain_rule
    ksuite_mail.Policy.domain_match ksuite_mail.Cache.Stamp.stamp ksuite_mail.Cache.Stamp.text_lt
    ksuite_mail.Cache.Session.query ksuite_mail.Daemon.Access.find_account
    ksuite_mail.Daemon.Access.cached_message_allowed_for_account
    ksuite_mail.Daemon.Handlers.handle_context
handle_context-IsContext_example =
    handle_context-IsContext platform server true (ok context_request) filled contexts refl

abbrev thread_request : ThreadRequest
thread_request = record { id = codes "m"; brief = true; max_messages = pos 5 }

abbrev threaded : Envelope ThreadResponse
threaded = value no_envelope (handle_thread platform server true (ok thread_request) filled).0

handle_thread-Allowed_example :
    (cfg : Config) × (server.config ≡ ok cfg)
    × Carries
        (IsThread platform server cfg
          (handle_thread platform server true (ok thread_request) filled).1.tables)
        threaded
unfolding ksuite_mail.Common.same ksuite_mail.Common.contains_text ksuite_mail.Strings.is_space
    ksuite_mail.Strings.trim_left ksuite_mail.Strings.trim_right ksuite_mail.Strings.fields_from
    ksuite_mail.Strings.after_last ksuite_mail.Policy.split_addresses
    ksuite_mail.Policy.address_domain ksuite_mail.Policy.normalize
    ksuite_mail.Policy.match_addresses ksuite_mail.Policy.exact_match ksuite_mail.Policy.domain_rule
    ksuite_mail.Policy.domain_match ksuite_mail.Cache.Stamp.stamp ksuite_mail.Cache.Stamp.text_lt
    ksuite_mail.Cache.Session.query ksuite_mail.Daemon.Access.find_account
    ksuite_mail.Daemon.Access.cached_message_allowed_for_account
    ksuite_mail.Daemon.Access.cached_message_allowed ksuite_mail.Daemon.Handlers.handle_thread
handle_thread-Allowed_example =
    handle_thread-Allowed platform server true (ok thread_request) filled threaded refl

-- The rest of the runs read the two rows.
abbrev load_rows : ℕ → ℕ → Action Repository Text (List CachedMessage)
load_rows n o s = (ok (take n (drop o (other ∷ message ∷ []))), s)

visible_message_page-list_messages_example :
    visible_message_page platform config
      (λ n o. list_messages (filter_of (codes "work") [] [] n o))
      5
      0
      filled
    ≡ (
      ok (
          take 5 (
            drop 0 (
              map to_message_summary (
                retain
                  (cached_message_allowed platform config)
                  (take 1000 (rows_of (codes "work") [] filled.tables)))))),
      filled,
    )
visible_message_page-list_messages_example =
    visible_message_page-list_messages platform config (codes "work") [] 5 0 filled.tables 10

visible_thread_messages-thread_messages_loader_example :
    visible_thread_messages platform config (thread_messages_loader message) 5 filled ≡ (
      ok (
          take 5 (
            retain
              (cached_message_allowed platform config)
              (take 1000 (thread_rows message filled.tables)))),
      filled,
    )
visible_thread_messages-thread_messages_loader_example =
    visible_thread_messages-thread_messages_loader platform config message 5 filled.tables 10

bounded_thread_context_lem_example :
    (snippet_bytes (message ∷ []) ≤ 9)
    × All
        (λ m. (cached_message_allowed platform config m ≡ true) × (same m.id (codes "s") ≡ false))
        (message ∷ [])
unfolding ksuite_mail.Common.same ksuite_mail.Common.contains_text ksuite_mail.Strings.byte_len
    ksuite_mail.Strings.is_space ksuite_mail.Strings.trim_left ksuite_mail.Strings.trim_right
    ksuite_mail.Strings.trim_space ksuite_mail.Strings.fields_from ksuite_mail.Strings.after_last
    ksuite_mail.Policy.split_addresses ksuite_mail.Policy.address_domain
    ksuite_mail.Policy.normalize ksuite_mail.Policy.match_addresses ksuite_mail.Policy.exact_match
    ksuite_mail.Policy.domain_rule ksuite_mail.Policy.domain_match
    ksuite_mail.Daemon.Access.find_account
    ksuite_mail.Daemon.Access.cached_message_allowed_for_account
    ksuite_mail.Daemon.Access.cached_message_allowed
    ksuite_mail.Daemon.Paging.bounded_thread_context
bounded_thread_context_lem_example =
    bounded_thread_context_lem platform config (codes "s") 9 load_rows filled (message ∷ []) refl

include_seed_message_lem_example :
    (has_message (codes "m") (include_seed_message (other ∷ []) message 1) ≡ true)
    × (length (include_seed_message (other ∷ []) message 1) ≤ 1)
    × ((m : CachedMessage)
        → In m (include_seed_message (other ∷ []) message 1)
        → (message ≡ m) ⊎ In m (other ∷ []))
include_seed_message_lem_example = include_seed_message_lem (other ∷ []) message 1 (omega arith)

abbrev warning : Warning
warning = record {
  code = [];
  message = [];
  account_id = codes "work";
  folder = codes "INBOX";
  last_successful_refresh_at = some 3;
}

refresh_affects_scope_lem_example :
    refresh_affects_scope (warning ∷ []) (codes "work") (codes "Sent") ≡ (
      not (is_empty (warnings_for_scope (warning ∷ []) (codes "work") (codes "Sent")))
      || is_empty (warning ∷ []))
unfolding ksuite_mail.Daemon.Scope.account_filter ksuite_mail.Daemon.Scope.warning_affects
    ksuite_mail.Daemon.Scope.affects_from ksuite_mail.Daemon.Scope.refresh_affects_scope
    ksuite_mail.Daemon.Scope.in_scope ksuite_mail.Daemon.Scope.warnings_for_scope
    ksuite_mail.Daemon.Scope.warnings_for_messages ksuite_mail.Daemon.Scope.scoped_refresh_meta
    ksuite_mail.Daemon.Scope.read_envelope_for_scope
    ksuite_mail.Daemon.Scope.read_envelope_for_messages ksuite_mail.Strings.byte_len
    ksuite_mail.Strings.is_space ksuite_mail.Strings.trim_left ksuite_mail.Strings.trim_right
    ksuite_mail.Strings.trim_space ksuite_mail.Strings.fields_from ksuite_mail.Strings.split
    ksuite_mail.Strings.join ksuite_mail.Strings.after_last ksuite_mail.Strings.has_prefix
    ksuite_mail.Strings.contains
refresh_affects_scope_lem_example =
    refresh_affects_scope_lem (warning ∷ []) (codes "work") (codes "Sent") (λ e. cc, tt)
