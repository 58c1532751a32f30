-- ===== src/Daemon/Showing.antt =====
-- internal/daemon/daemon.go: what the responses with a seed show, and that of handleShow.
use ksuite_mail.Common.{
  ◌≡◌, refl, sym, subst, Bool, true, false, not, ◌⊎◌, inl, inr, Option, none, some, Result, ok,
  arith, Text, same, ok_injective,
}
use ksuite_mail.Strings.{Platform}
use ksuite_mail.Mail.{Config, CachedMessage}
use ksuite_mail.Api.{
  Status, status_ok, status_ok_stale, status_partial, status_error, read_status, Envelope,
  ShowRequest, ShowResponse,
}
use ksuite_mail.Actions.{raise, ◌>>=◌, ◌>>◌, with_error}
use ksuite_mail.Actions.Triples.{Triple, Triple-pure, Triple-raise, Triple-bind}
use ksuite_mail.Actions.Leaves.{
  Anywhere, Leaves, Leaves-bind, Leaves-bind-yields, Leaves-triples, Leaves-weaken,
  Triple-with_error, Triple-test, Triple-given,
}
use ksuite_mail.Cache.Tables.{Tables}
use ksuite_mail.Cache.Session.{Repository}
use ksuite_mail.Daemon.Scope.{read_envelope_for_scope}
use ksuite_mail.Daemon.Access.{default_limit, cached_message_allowed, to_message_detail}
use ksuite_mail.Daemon.Permitted.{IsPermitted, cached_message_allowed-IsPermitted}
use ksuite_mail.Daemon.Cached.{IsCached, IsRowOf, IsMissed, tables_of, Has, get_by_public_id-Has}
use ksuite_mail.Refresh.Cycle.{RefreshResult}
use ksuite_mail.Daemon.Server.{
  Server, Handler, internal_error, require, read_ok, refresh_miss, if_error, not_found,
  refresh_and_load_config,
}
use ksuite_mail.Daemon.Handlers.{
  answer_show, show_reply, missed_show, read_seed, handle_show, with_seed,
}
use ksuite_mail.Daemon.Replies.{shown_body, no_detail}
use ksuite_mail.Daemon.Shown.{Carries, read_ok-Carries, receive-Yields, config-Yields}

module _ (p : Platform) (srv : Server) where
  -- The seed of a request: a cached row that has the id and that the configuration permits.
  abbrev pub IsSeed : Text → Config → Tables → CachedMessage → Type 0
  IsSeed id cfg t m = IsCached t m × (same m.id id ≡ true) × IsPermitted p cfg m

  missed-Triple :
      {R : Type 0} (Q : Envelope R → Type 0) (t : Tables) (res : RefreshResult) (empty : R)
      → Q (read_ok status_error empty res.warnings)
      → Triple
          (Has t)
          (require not_found (refresh_miss empty res))
          (λ env r. Has t r × Q env)
          Anywhere
  unfolding refresh_miss
  missed-Triple {R} Q t res empty miss = go (read_status res.meta res.partial false)
    where
      refused :
          Triple (Has t) (raise {A = Envelope R} not_found) (λ env r. Has t r × Q env) Anywhere
      refused = Triple-raise (Has t) (λ env r. Has t r × Q env) Anywhere not_found (λ r h. tt)

      go :
          (status : Status)
          → Triple
              (Has t)
              (require not_found (if_error status (read_ok status_error empty res.warnings)))
              (λ env r. Has t r × Q env)
              Anywhere
      go status_ok = refused
      go status_ok_stale = refused
      go status_partial = refused
      go status_error = Triple-pure (Has t) (λ env r. Has t r × Q env) Anywhere _ (λ r h. (h, miss))

  -- What follows GetByPublicID: a message that is missed, or the seed.
  pub with_seed-Leaves :
      {R : Type 0} (Q : Tables → Envelope R → Type 0) (id : Text) (cfg : Config)
      (res : RefreshResult) (empty : R) (answer : CachedMessage → Handler (Envelope R))
      → ((t : Tables) → IsMissed id t → Q t (read_ok status_error empty res.warnings))
      → ((t : Tables) (seed : CachedMessage)
          → IsSeed id cfg t seed
          → Triple (Has t) (answer seed) (λ env r. Has t r × Q t env) Anywhere)
      → Leaves
          (read_seed p srv id >>= λ found. with_seed p srv cfg res empty found answer)
          (λ env r. Q r.tables env)
  with_seed-Leaves {R} Q id cfg res empty answer miss hit = Leaves-triples tables_of Q _ λ t.
      Triple-bind (Has t) (λ found r. Has t r × IsRowOf id t found) (λ env r. Has t r × Q t env)
        Anywhere _ _
        (Triple-with_error (Has t) (λ found r. Has t r × IsRowOf id t found) _ _
          (get_by_public_id-Has t id))
        λ found. Triple-given (Has t) (λ env r. Has t r × Q t env) _ (seeded t found)
    where
      seeded :
          (t : Tables) (found : Option CachedMessage)
          → IsRowOf id t found
          → Triple
              (Has t)
              (with_seed p srv cfg res empty found answer)
              (λ env r. Has t r × Q t env)
              Anywhere
      seeded t none i = missed-Triple (Q t) t res empty (miss t i)
      seeded t (some seed) (i, e) =
          Triple-test (Has t) (λ env r. Has t r × Q t env) (not (cached_message_allowed p cfg seed))
            _ _
            (λ h. Triple-raise (Has t) (λ env r. Has t r × Q t env) Anywhere not_found (λ r x. tt))
            (λ h. hit t seed (i, e, cached_message_allowed-IsPermitted p cfg seed (ground arith)))

  abbrev pub ShowsSeed : ShowRequest → Config → Tables → ShowResponse → Type 0
  ShowsSeed req cfg t resp =
      (IsMissed req.id t × (resp.result ≡ no_detail))
      ⊎ ((msg : CachedMessage) × IsSeed req.id cfg t msg
          × (resp.result ≡ to_message_detail msg (shown_body req msg) req.preview))

  show-Leaves :
      (is_post : Bool) (body : Result Text ShowRequest)
      → Leaves (handle_show p srv is_post body) (λ env r.
        (req : ShowRequest) × (cfg : Config) × (body ≡ ok req)
        × (srv.config ≡ ok cfg)
        × Carries (ShowsSeed req cfg r.tables) env)
  unfolding handle_show ◌>>◌
  show-Leaves is_post body =
      Leaves-bind-yields Q (λ req. body ≡ ok req) _ _ (receive-Yields p srv _ is_post body)
        λ req b. Leaves-bind Q _ _ λ u.
          Leaves-bind-yields Q (λ cfg. srv.config ≡ ok cfg) _ _ (config-Yields p srv)
            λ cfg c.
              Leaves-bind Q
                (with_error internal_error (refresh_and_load_config p srv cfg default_limit)) _
                λ res.
                  Leaves-weaken Q (λ env r. Carries (ShowsSeed req cfg r.tables) env) _
                    (λ env r v. (req, cfg, b, c, v))
                    (with_seed-Leaves (λ t. Carries (ShowsSeed req cfg t)) req.id cfg res
                      (missed_show p srv res) (answer_show p srv req res)
                      (λ t n.
                        read_ok-Carries (ShowsSeed req cfg t) status_error (missed_show p srv res)
                          res.warnings (inl (n, refl)))
                      (λ t seed i.
                        Triple-pure (Has t) (λ env r. Has t r × Carries (ShowsSeed req cfg t) env)
                          Anywhere (show_reply p srv req res seed)
                          (λ r h. (h, shown t req cfg res seed i))))
    where
      Q : Envelope ShowResponse → Repository → Type 0
      Q env r =
          (req : ShowRequest) × (cfg : Config) × (body ≡ ok req)
          × (srv.config ≡ ok cfg)
          × Carries (ShowsSeed req cfg r.tables) env

      shown :
          (t : Tables) (req : ShowRequest) (cfg : Config) (res : RefreshResult)
          (seed : CachedMessage)
          → IsSeed req.id cfg t seed
          → Carries (ShowsSeed req cfg t) (show_reply p srv req res seed)
      shown t req cfg res seed i =
          let env = read_envelope_for_scope res seed.account_id seed.folder true in
          read_ok-Carries (ShowsSeed req cfg t) env.status _ env.warnings (inr (seed, i, refl))

-- A show that succeeds, from any cache, with any remote source and any faults of the database, has the
-- detail of a row with the requested id in the cache as the request leaves it, with the body cut as
-- requested; the row is in a configured folder of a configured account which has no domain policy, or has
-- an address of a configured domain in one of its headers. Or no row has the requested id, and the
-- message is empty.
pub handle_show-Allowed :
    (p : Platform) (srv : Server) (is_post : Bool) (req : ShowRequest) (r : Repository)
    (env : Envelope ShowResponse)
    → (handle_show p srv is_post (ok req) r).0 ≡ ok env
    → (cfg : Config) × (srv.config ≡ ok cfg)
      × Carries (ShowsSeed p srv req cfg (handle_show p srv is_post (ok req) r).1.tables) env
handle_show-Allowed p srv is_post req r env h =
    let (req', cfg, e, c, l) = (show-Leaves p srv is_post (ok req)).at r env h in
    (
      cfg,
      c,
      subst
          (λ (x : ShowRequest).
            Carries (ShowsSeed p srv x cfg (handle_show p srv is_post (ok req) r).1.tables) env)
          (sym (ok_injective e)) l,
    )
