-- ===== src/Daemon/Handlers.antt =====
-- internal/daemon/daemon.go: the handlers of the read commands. A handler takes whether the method is
-- POST and what decodeRequestBody returns; it gives the envelope of a response with the code 200, or a
-- failure.
use ksuite_mail.Common.{
  ℕ, ◌+◌, ◌-◌, Bool, true, not, Option, none, some, List, [], ◌∷◌, map, Result, if◌then◌else◌, Text,
  codes,
}
use ksuite_mail.Strings.{Platform, trim_space, is_empty}
use ksuite_mail.Mail.{Config, CachedMessage}
use ksuite_mail.Api.{
  Envelope, ListRequest, SearchRequest, ShowRequest, ThreadRequest, ContextRequest, ListResponse,
  ShowResponse, ThreadResponse, ContextResponse,
}
use ksuite_mail.Actions.{pure, raise, lift, ◌>>=◌, ◌>>◌, with_error}
use ksuite_mail.Cache.Reads.{list_messages, search_messages, get_by_public_id}
use ksuite_mail.Refresh.Cycle.{RefreshResult}
use ksuite_mail.Daemon.Access.{
  default_limit, cached_message_allowed, effective_read_limit, normalize_read_page,
  normalize_thread_limit, normalize_context_budget, to_message_summary, to_message_detail,
}
use ksuite_mail.Daemon.Paging.{
  visible_message_page, visible_thread_messages, include_seed_message, bounded_thread_context,
}
use ksuite_mail.Daemon.Scope.{account_filter, read_envelope_for_scope, read_envelope_for_messages}
use ksuite_mail.Daemon.Server.{
  Server, Handler, internal_error, bad_request, not_found, reject_if, require, receive,
  refresh_and_load_config, read_ok, refresh_miss,
}
use ksuite_mail.Daemon.Replies.{
  list_reply, filter_of, window_failure, shown_body, no_detail, thread_messages_loader,
  timeline_from, seed_body,
}

module _ (p : Platform) (srv : Server) where
  -- The end of handleList: the page is read once the cache is refreshed.
  unfoldable pub answer_list :
      ListRequest → Config → ℕ × ℕ → RefreshResult → Handler (Envelope ListResponse)
  unfolding ◌>>=◌ with_error visible_message_page list_messages effective_read_limit account_filter
      read_envelope_for_scope read_ok
  answer_list req cfg page res = do
    results ←
        with_error (λ _. internal_error (codes "could not query cache"))
          (visible_message_page p cfg
            (λ limit offset. list_messages (filter_of req.account req.folder [] limit offset))
            (effective_read_limit cfg.default_limit req.limit) page.1)
    pure (
        list_reply results
          (read_envelope_for_scope res req.account req.folder (not (is_empty results))))

  -- handleList
  unfoldable pub handle_list : Bool → Result Text ListRequest → Handler (Envelope ListResponse)
  unfolding ◌>>=◌ ◌>>◌ with_error normalize_read_page refresh_and_load_config answer_list
  handle_list is_post body = do
    req ← receive (codes "use POST for /v1/list") is_post body
    cfg ← with_error internal_error (lift srv.config)
    page ← require window_failure (normalize_read_page cfg.default_limit req.limit req.offset)
    res ← with_error internal_error (refresh_and_load_config p srv cfg (page.0 + page.1))
    answer_list req cfg page res

  -- The end of handleSearch.
  unfoldable pub answer_search :
      SearchRequest → Config → ℕ × ℕ → RefreshResult → Handler (Envelope ListResponse)
  unfolding ◌>>=◌ with_error visible_message_page search_messages effective_read_limit
      account_filter read_envelope_for_scope read_ok
  answer_search req cfg page res = do
    results ←
        with_error (λ _. internal_error (codes "could not search cache"))
          (visible_message_page p cfg
            (λ limit offset.
              search_messages srv.matches
                (filter_of req.account req.folder req.query_text limit offset))
            (effective_read_limit cfg.default_limit req.limit) page.1)
    pure (
        list_reply results
          (read_envelope_for_scope res req.account req.folder (not (is_empty results))))

  -- handleSearch
  unfoldable pub handle_search : Bool → Result Text SearchRequest → Handler (Envelope ListResponse)
  unfolding ◌>>=◌ ◌>>◌ with_error normalize_read_page refresh_and_load_config answer_search
      trim_space
  handle_search is_post body = do
    req ← receive (codes "use POST for /v1/search") is_post body
    reject_if (is_empty (trim_space req.query_text)) (bad_request (codes "query is required"))
    cfg ← with_error internal_error (lift srv.config)
    page ← require window_failure (normalize_read_page cfg.default_limit req.limit req.offset)
    res ← with_error internal_error (refresh_and_load_config p srv cfg (page.0 + page.1))
    answer_search req cfg page res

  abbrev pub required_id : Text → Handler (Unit {0})
  required_id id = reject_if (is_empty (trim_space id)) (bad_request (codes "id is required"))

  abbrev pub read_seed : Text → Handler (Option CachedMessage)
  read_seed id =
      with_error (λ _. internal_error (codes "could not read cache")) (get_by_public_id id)

  -- What follows GetByPublicID: a miss is answered, and a message that the configuration does not allow
  -- is not found.
  abbrev pub with_seed :
      {R : Type 0}
      → Config
      → RefreshResult
      → R
      → Option CachedMessage
      → (CachedMessage → Handler (Envelope R))
      → Handler (Envelope R)
  with_seed cfg res empty none answer = require not_found (refresh_miss empty res)
  with_seed cfg res empty (some seed) answer =
      if not (cached_message_allowed p cfg seed) then raise not_found else answer seed

  abbrev pub show_reply : ShowRequest → RefreshResult → CachedMessage → Envelope ShowResponse
  show_reply req res msg =
      let env = read_envelope_for_scope res msg.account_id msg.folder true in
      read_ok env.status
        (record {
          result = to_message_detail msg (shown_body req msg) req.preview;
          meta = env.meta;
        })
        env.warnings

  abbrev pub answer_show :
      ShowRequest → RefreshResult → CachedMessage → Handler (Envelope ShowResponse)
  answer_show req res msg = pure (show_reply req res msg)

  abbrev pub missed_show : RefreshResult → ShowResponse
  missed_show res = record { result = no_detail; meta = res.meta }

  abbrev pub missed_thread : RefreshResult → ThreadResponse
  missed_thread res = record { thread_key = []; messages = []; meta = res.meta }

  abbrev pub missed_context : RefreshResult → ContextResponse
  missed_context res = record {
    seed = no_detail;
    timeline = [];
    meta = res.meta;
    message_budget = 0;
  }

  -- handleShow
  unfoldable pub handle_show : Bool → Result Text ShowRequest → Handler (Envelope ShowResponse)
  unfolding ◌>>=◌ ◌>>◌ with_error refresh_and_load_config get_by_public_id cached_message_allowed
      refresh_miss shown_body read_envelope_for_scope read_ok trim_space
  handle_show is_post body = do
    req ← receive (codes "use POST for /v1/show") is_post body
    required_id req.id
    cfg ← with_error internal_error (lift srv.config)
    res ← with_error internal_error (refresh_and_load_config p srv cfg default_limit)
    found ← read_seed req.id
    with_seed cfg res (missed_show res) found (answer_show req res)

  abbrev pub thread_reply :
      RefreshResult → CachedMessage → List CachedMessage → Envelope ThreadResponse
  thread_reply res seed messages =
      let env = read_envelope_for_messages res messages in
      read_ok env.status
        (record {
          thread_key = seed.thread_key;
          messages = map to_message_summary messages;
          meta = env.meta;
        })
        env.warnings

  -- The end of handleThread, for a seed that is found and allowed.
  unfoldable pub answer_thread :
      Config → ℕ → RefreshResult → CachedMessage → Handler (Envelope ThreadResponse)
  unfolding ◌>>=◌ with_error visible_thread_messages thread_messages_loader include_seed_message
      read_envelope_for_messages read_ok
  answer_thread cfg max_messages res seed = do
    messages ←
        with_error (λ _. internal_error (codes "could not read thread"))
          (visible_thread_messages p cfg (thread_messages_loader seed) max_messages)
    pure (thread_reply res seed (include_seed_message messages seed max_messages))

  -- handleThread
  unfoldable pub handle_thread :
      Bool → Result Text ThreadRequest → Handler (Envelope ThreadResponse)
  unfolding ◌>>=◌ ◌>>◌ with_error normalize_thread_limit refresh_and_load_config get_by_public_id
      cached_message_allowed refresh_miss answer_thread trim_space
  handle_thread is_post body = do
    req ← receive (codes "use POST for /v1/thread") is_post body
    required_id req.id
    max_messages ←
        require (bad_request (codes "max_messages exceeds maximum read window"))
          (normalize_thread_limit req.max_messages)
    cfg ← with_error internal_error (lift srv.config)
    res ← with_error internal_error (refresh_and_load_config p srv cfg default_limit)
    found ← read_seed req.id
    with_seed cfg res (missed_thread res) found (answer_thread cfg max_messages res)

  abbrev pub context_reply :
      Config → ℕ → RefreshResult → CachedMessage → List CachedMessage → Envelope ContextResponse
  context_reply cfg budget res seed msgs =
      let (timeline, used) = timeline_from (cached_message_allowed p cfg) seed.id budget 0 msgs in
      let env = read_envelope_for_messages res (seed ∷ msgs) in
      read_ok env.status
        (record {
          seed = to_message_detail seed (seed_body seed (budget - used)) true;
          timeline = timeline;
          meta = env.meta;
          message_budget = budget;
        })
        env.warnings

  -- The end of handleContext, for a seed that is found and allowed.
  unfoldable pub answer_context :
      Config → ℕ → RefreshResult → CachedMessage → Handler (Envelope ContextResponse)
  unfolding ◌>>=◌ with_error bounded_thread_context thread_messages_loader timeline_from seed_body
      read_envelope_for_messages read_ok
  answer_context cfg budget res seed = do
    msgs ←
        with_error (λ _. internal_error (codes "could not read thread"))
          (bounded_thread_context p cfg seed.id budget (thread_messages_loader seed))
    pure (context_reply cfg budget res seed msgs)

  -- handleContext
  unfoldable pub handle_context :
      Bool → Result Text ContextRequest → Handler (Envelope ContextResponse)
  unfolding ◌>>=◌ ◌>>◌ with_error normalize_context_budget refresh_and_load_config get_by_public_id
      cached_message_allowed refresh_miss answer_context trim_space
  handle_context is_post body = do
    req ← receive (codes "use POST for /v1/context") is_post body
    required_id req.id
    budget ←
        require (bad_request (codes "budget exceeds maximum context budget"))
          (normalize_context_budget req.budget)
    cfg ← with_error internal_error (lift srv.config)
    res ← with_error internal_error (refresh_and_load_config p srv cfg default_limit)
    found ← read_seed req.id
    with_seed cfg res (missed_context res) found (answer_context cfg budget res)
