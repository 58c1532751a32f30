-- ===== src/Daemon/Shown.antt =====
-- internal/daemon/daemon.go: what the responses of the read commands show.
use ksuite_mail.Common.{
  ℕ, ◌+◌, ◌≤◌, ◌≡◌, refl, sym, subst, Bool, true, not, some, List, [], ◌∷◌, Result, ok, All, Text,
  length, ok_injective,
}
use ksuite_mail.Common.Ints.{ℤ}
use ksuite_mail.Strings.{Platform}
use ksuite_mail.Mail.{Config, CachedMessage}
use ksuite_mail.Api.{
  Status, status_ok, status_ok_stale, status_partial, status_error, Envelope, MessageSummary,
  ListRequest, SearchRequest, ListResponse,
}
use ksuite_mail.Actions.{pure, lift, ◌>>=◌, ◌>>◌, with_error}
use ksuite_mail.Actions.Keeps.{Yields, Yields-bind, Yields-lift, Yields-with_error}
use ksuite_mail.Cache.Tables.{Tables, DbError}
use ksuite_mail.Cache.Session.{Repository, Db}
use ksuite_mail.Actions.Triples.{Triple-pure, Triple-bind}
use ksuite_mail.Actions.Leaves.{
  Anywhere, Leaves, Leaves-bind, Leaves-bind-yields, Leaves-weaken, Leaves-triples,
  Triple-with_error,
}
use ksuite_mail.Daemon.Permitted.{IsPermitted, cached_message_allowed-IsPermitted}
use ksuite_mail.Daemon.Cached.{
  IsCached, tables_of, Has, Returns, list_messages-Returns, search_messages-Returns,
}
use ksuite_mail.Daemon.Scope.{ReadEnvelope, read_envelope_for_scope}
use ksuite_mail.Strings.{is_empty}
use ksuite_mail.Daemon.Access.{
  cached_message_allowed, effective_read_limit, normalize_read_page, to_message_summary,
}
use ksuite_mail.Daemon.Paging.{limit_or_default, visible_message_page}
use ksuite_mail.Refresh.Cycle.{Warning, RefreshResult}
use ksuite_mail.Daemon.Server.{
  Server, Failure, internal_error, require, receive, read_ok, refresh_and_load_config,
}
use ksuite_mail.Daemon.Visible.{visible_message_page-Allowed}
use ksuite_mail.Daemon.Handlers.{answer_list, answer_search, handle_list, handle_search}
use ksuite_mail.Daemon.Replies.{list_reply, filter_of, window_failure}

-- The envelope carries a payload with the property.
abbrev pub Carries : {R : Type 0} → (R → Type 0) → Envelope R → Type 0
Carries {R} Q env = (payload : R) × (env.result ≡ some payload) × Q payload

module _ {R : Type 0} (Q : R → Type 0) where
  pub read_ok-Carries :
      (status : Status) (payload : R) (warnings : List Warning)
      → Q payload
      → Carries Q (read_ok status payload warnings)
  unfolding read_ok
  read_ok-Carries status_ok payload warnings q = (payload, refl, q)
  read_ok-Carries status_ok_stale payload warnings q = (payload, refl, q)
  read_ok-Carries status_partial payload warnings q = (payload, refl, q)
  read_ok-Carries status_error payload warnings q = (payload, refl, q)

module _ (p : Platform) (srv : Server) where
  -- Each is the summary of a cached row that the configuration permits.
  abbrev pub ShowsPermitted : Tables → Config → List MessageSummary → Type 0
  ShowsPermitted t cfg results =
      All
        (λ b. (m : CachedMessage) × IsCached t m × IsPermitted p cfg m × (b ≡ to_message_summary m))
        results

  abbrev pub ListsPermitted : Tables → ℤ → Envelope ListResponse → Type 0
  ListsPermitted t requested env =
      (cfg : Config) × (srv.config ≡ ok cfg)
      × Carries
          (λ resp.
            (length resp.results
              ≤ limit_or_default (effective_read_limit cfg.default_limit requested))
            × ShowsPermitted t cfg resp.results)
          env

  pub config-Yields :
      Yields {S = Repository}
        (with_error internal_error (lift srv.config))
        λ cfg. srv.config ≡ ok cfg
  config-Yields =
      Yields-with_error (λ cfg. srv.config ≡ ok cfg) internal_error (lift srv.config)
        (Yields-lift srv.config)

  pub receive-Yields :
      {A : Type 0} (message : Text) (is_post : Bool) (body : Result Text A)
      → Yields {S = Repository} (receive message is_post body) λ req. body ≡ ok req
  unfolding ◌>>◌
  receive-Yields message is_post body =
      Yields-bind (λ req. body ≡ ok req) _ _
        λ u. Yields-with_error (λ req. body ≡ ok req) _ (lift body) (Yields-lift body)

  abbrev IsPage : Config → ℤ → Tables → List MessageSummary → Type 0
  IsPage cfg requested t results =
      (length results ≤ limit_or_default (effective_read_limit cfg.default_limit requested))
      × ShowsPermitted t cfg results

  permitted :
      (t : Tables) (cfg : Config) (results : List MessageSummary)
      → All
          (λ b.
            (m : CachedMessage) × IsCached t m
            × (cached_message_allowed p cfg m ≡ true)
            × (b ≡ to_message_summary m))
          results
      → ShowsPermitted t cfg results
  permitted t cfg [] a = tt
  permitted t cfg (b ∷ bs) ((m, i, q, e), a) =
      ((m, i, cached_message_allowed-IsPermitted p cfg m q, e), permitted t cfg bs a)

  -- The end of handleList and of handleSearch: a page of what is loaded, and the reply with it.
  IsPage-Leaves :
      (cfg : Config) (requested : ℤ) (offset : ℕ) (load : ℕ → ℕ → Db (List CachedMessage))
      (failure : DbError → Failure) (env_of : List MessageSummary → ReadEnvelope)
      → ((t : Tables) (n k : ℕ) → Returns t (load n k))
      → Leaves
          (with_error failure (
              visible_message_page p cfg load
                (effective_read_limit cfg.default_limit requested)
                offset)
            >>= λ results. pure (list_reply results (env_of results)))
          (λ env r. Carries (λ resp. IsPage cfg requested r.tables resp.results) env)
  IsPage-Leaves cfg requested offset load failure env_of loads =
      Leaves-triples tables_of (λ t env. Carries (λ resp. IsPage cfg requested t resp.results) env)
        _
        λ t.
          Triple-bind (Has t) (λ results r. Has t r × Loaded t results)
            (λ env r. Has t r × Carries (λ resp. IsPage cfg requested t resp.results) env) Anywhere
            _ _
            (Triple-with_error (Has t) (λ results r. Has t r × Loaded t results) failure _
              (visible_message_page-Allowed (IsCached t) (Has t) p cfg load _ offset (loads t)))
            λ results.
              Triple-pure (λ r. Has t r × Loaded t results)
                (λ env r. Has t r × Carries (λ resp. IsPage cfg requested t resp.results) env)
                Anywhere _
                λ r (h, (few, a)). (
                  h,
                  read_ok-Carries (λ resp. IsPage cfg requested t resp.results) _ _ _
                      (few, permitted t cfg results a),
                )
    where
      Loaded : Tables → List MessageSummary → Type 0
      Loaded t results =
          (length results ≤ limit_or_default (effective_read_limit cfg.default_limit requested))
          × All
              (λ b.
                (m : CachedMessage) × IsCached t m
                × (cached_message_allowed p cfg m ≡ true)
                × (b ≡ to_message_summary m))
              results

  answer_list-Leaves :
      (req : ListRequest) (cfg : Config) (page : ℕ × ℕ) (res : RefreshResult)
      → Leaves
          (answer_list p srv req cfg page res)
          (λ env r. Carries (λ resp. IsPage cfg req.limit r.tables resp.results) env)
  unfolding answer_list
  answer_list-Leaves req cfg page res =
      IsPage-Leaves cfg req.limit page.1 _ _
        (λ results. read_envelope_for_scope res req.account req.folder (not (is_empty results)))
        (λ t n k. list_messages-Returns t (filter_of req.account req.folder [] n k))

  answer_search-Leaves :
      (req : SearchRequest) (cfg : Config) (page : ℕ × ℕ) (res : RefreshResult)
      → Leaves
          (answer_search p srv req cfg page res)
          (λ env r. Carries (λ resp. IsPage cfg req.limit r.tables resp.results) env)
  unfolding answer_search
  answer_search-Leaves req cfg page res =
      IsPage-Leaves cfg req.limit page.1 _ _
        (λ results. read_envelope_for_scope res req.account req.folder (not (is_empty results)))
        (λ t n k.
          search_messages-Returns t srv.matches
            (filter_of req.account req.folder req.query_text n k))

  list-Leaves :
      (is_post : Bool) (body : Result Text ListRequest)
      → Leaves
          (handle_list p srv is_post body)
          (λ env r. (req : ListRequest) × (body ≡ ok req) × ListsPermitted r.tables req.limit env)
  unfolding handle_list
  list-Leaves is_post body =
      Leaves-bind-yields Q (λ req. body ≡ ok req) _ _ (receive-Yields _ is_post body)
        λ req b.
          Leaves-bind-yields Q (λ cfg. srv.config ≡ ok cfg) _ _ config-Yields
            λ cfg c.
              Leaves-bind Q
                (require window_failure
                  (normalize_read_page cfg.default_limit req.limit req.offset))
                _
                λ page.
                  Leaves-bind Q
                    (with_error internal_error
                      (refresh_and_load_config p srv cfg (page.0 + page.1)))
                    (answer_list p srv req cfg page)
                    λ res.
                      Leaves-weaken Q
                        (λ env r. Carries (λ resp. IsPage cfg req.limit r.tables resp.results) env)
                        (answer_list p srv req cfg page res) (λ env r v. (req, b, (cfg, c, v)))
                        (answer_list-Leaves req cfg page res)
    where
      Q : Envelope ListResponse → Repository → Type 0
      Q env r = (req : ListRequest) × (body ≡ ok req) × ListsPermitted r.tables req.limit env

  search-Leaves :
      (is_post : Bool) (body : Result Text SearchRequest)
      → Leaves
          (handle_search p srv is_post body)
          (λ env r. (req : SearchRequest) × (body ≡ ok req) × ListsPermitted r.tables req.limit env)
  unfolding handle_search ◌>>◌
  search-Leaves is_post body =
      Leaves-bind-yields Q (λ req. body ≡ ok req) _ _ (receive-Yields _ is_post body)
        λ req b. Leaves-bind Q _ _ λ u.
          Leaves-bind-yields Q (λ cfg. srv.config ≡ ok cfg) _ _ config-Yields
            λ cfg c.
              Leaves-bind Q
                (require window_failure
                  (normalize_read_page cfg.default_limit req.limit req.offset))
                _
                λ page.
                  Leaves-bind Q
                    (with_error internal_error
                      (refresh_and_load_config p srv cfg (page.0 + page.1)))
                    (answer_search p srv req cfg page)
                    λ res.
                      Leaves-weaken Q
                        (λ env r. Carries (λ resp. IsPage cfg req.limit r.tables resp.results) env)
                        (answer_search p srv req cfg page res) (λ env r v. (req, b, (cfg, c, v)))
                        (answer_search-Leaves req cfg page res)
    where
      Q : Envelope ListResponse → Repository → Type 0
      Q env r = (req : SearchRequest) × (body ≡ ok req) × ListsPermitted r.tables req.limit env

-- A list that succeeds, from any cache, with any remote source and any faults of the database: the
-- response has at most as many results as requested, or as the configuration sets, and each is the
-- summary of a row of the cache as the request leaves it, in a configured folder of a configured account
-- which has no domain policy, or with an address of a configured domain in one of the row's headers.
pub handle_list-Allowed :
    (p : Platform) (srv : Server) (is_post : Bool) (req : ListRequest) (r : Repository)
    (env : Envelope ListResponse)
    → (handle_list p srv is_post (ok req) r).0 ≡ ok env
    → ListsPermitted p srv (handle_list p srv is_post (ok req) r).1.tables req.limit env
handle_list-Allowed p srv is_post req r env h =
    let (req', e, l) = (list-Leaves p srv is_post (ok req)).at r env h in
    subst
      (λ (x : ListRequest).
        ListsPermitted p srv (handle_list p srv is_post (ok req) r).1.tables x.limit env)
      (sym (ok_injective e)) l

-- A search that succeeds, from any cache, with any remote source and any faults of the database, and
-- whatever MATCH finds: at most as many results as requested, or as the configuration sets, and each is the
-- summary of a row of the cache as the request leaves it, in a configured folder of a configured account
-- which has no domain policy, or with an address of a configured domain in one of the row's headers.
pub handle_search-Allowed :
    (p : Platform) (srv : Server) (is_post : Bool) (req : SearchRequest) (r : Repository)
    (env : Envelope ListResponse)
    → (handle_search p srv is_post (ok req) r).0 ≡ ok env
    → ListsPermitted p srv (handle_search p srv is_post (ok req) r).1.tables req.limit env
handle_search-Allowed p srv is_post req r env h =
    let (req', e, l) = (search-Leaves p srv is_post (ok req)).at r env h in
    subst
      (λ (x : SearchRequest).
        ListsPermitted p srv (handle_search p srv is_post (ok req) r).1.tables x.limit env)
      (sym (ok_injective e)) l
