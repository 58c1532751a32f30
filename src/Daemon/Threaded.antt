-- ===== src/Daemon/Threaded.antt =====
-- internal/daemon/daemon.go: what handleThread shows.
use ksuite_mail.Common.{
  ℕ, zero, suc, ◌-◌, ◌≤◌, ◌≡◌, refl, Bool, true, inl, inr, Bool-cases, Option, none, some, List, [],
  ◌∷◌, map, Result, ok, arith, ltb, ltb→le, take, All, length, Text, codes,
}
use ksuite_mail.Common.Ints.{ℤ, pos}
use ksuite_mail.Strings.{Platform}
use ksuite_mail.Mail.{Config, CachedMessage}
use ksuite_mail.Api.{status_error, Envelope, ThreadRequest, ThreadResponse}
use ksuite_mail.Actions.{◌>>◌, with_error}
use ksuite_mail.Actions.Keeps.{Yields, Yields-pure, Yields-raise}
use ksuite_mail.Actions.Triples.{Triple, Triple-pure, Triple-bind}
use ksuite_mail.Actions.Leaves.{
  Anywhere, Leaves, Leaves-bind, Leaves-bind-yields, Leaves-weaken, Triple-with_error,
}
use ksuite_mail.Cache.Tables.{Tables}
use ksuite_mail.Daemon.Permitted.{IsPermitted, cached_message_allowed-IsPermitted}
use ksuite_mail.Daemon.Cached.{IsCached, Has, thread_messages_loader-Returns}
use ksuite_mail.Cache.Session.{Repository}
use ksuite_mail.Refresh.Cycle.{RefreshResult}
use ksuite_mail.Daemon.Access.{
  default_limit, max_read_window, cached_message_allowed, with_default, normalize_thread_limit,
  to_message_summary,
}
use ksuite_mail.Daemon.Paging.{limit_or_default, has_message, include_seed_message}
use ksuite_mail.Daemon.Scope.{read_envelope_for_messages}
use ksuite_mail.Daemon.Server.{
  Server, Failure, internal_error, bad_request, require, receive, refresh_and_load_config,
}
use ksuite_mail.Daemon.Handlers.{
  thread_reply, missed_thread, answer_thread, handle_thread, required_id,
}
use ksuite_mail.Daemon.Replies.{thread_messages_loader}
use ksuite_mail.Daemon.Threads.{include_seed_message_lem}
use ksuite_mail.Daemon.Visible.{visible_thread_messages-Allowed}
use ksuite_mail.Daemon.Shown.{Carries, read_ok-Carries, config-Yields, ShowsPermitted}
use ksuite_mail.Daemon.Showing.{IsSeed, with_seed-Leaves}

require-Yields :
    {A : Type 0} (f : Failure) (o : Option A)
    → Yields {S = Repository} (require f o) λ a. o ≡ some a
require-Yields f none = Yields-raise (λ a. none ≡ some a) f
require-Yields f (some a) = Yields-pure (λ b. some a ≡ some b) a refl

normalize_thread_limit-le :
    (requested : ℤ) (limit : ℕ)
    → normalize_thread_limit requested ≡ some limit
    → limit_or_default limit ≤ max_read_window
unfolding normalize_thread_limit
normalize_thread_limit-le requested limit h =
    elim (Bool-cases (ltb max_read_window (with_default (pos 0) requested default_limit))) [
      | inl over ↦ absurd (refused (rw over at h))
      | inr within ↦ ground (arith, some_injective (rw within at h), ltb→le _ _ within)
    ]
  where
    refused : ◌≡◌ {A = Option ℕ} none (some limit) → ⊥
    refused e = cc

    some_injective : {a b : ℕ} → some a ≡ some b → a ≡ b
    some_injective e = cc

module _ (A : CachedMessage → Type 0) where
  All-take : (n : ℕ) (xs : List CachedMessage) → All A xs → All A (take n xs)
  All-take zero xs a = tt
  All-take (suc n) [] a = tt
  All-take (suc n) (x ∷ xs) (q, a) = (q, All-take n xs a)

  All-include_seed_message :
      (msgs : List CachedMessage) (seed : CachedMessage) (limit : ℕ)
      → A seed
      → All A msgs
      → All A (include_seed_message msgs seed limit)
  unfolding include_seed_message
  All-include_seed_message msgs seed limit q a = elim (Bool-cases (has_message seed.id msgs)) [
    | inl e ↦ rw e a
    | inr e ↦ rw e (q, All-take (limit_or_default limit - 1) msgs a)
  ]

length-map : (msgs : List CachedMessage) → length (map to_message_summary msgs) ≡ length msgs
length-map [] = refl
length-map (m ∷ ms) = omega (arith, length-map ms)

module _ (p : Platform) (srv : Server) where
  -- At most maxReadWindow messages, each a cached row that the configuration permits.
  abbrev pub IsThread : Config → Tables → ThreadResponse → Type 0
  IsThread cfg t resp =
      (length resp.messages ≤ max_read_window) × ShowsPermitted p srv t cfg resp.messages

  summaries :
      (t : Tables) (cfg : Config) (msgs : List CachedMessage)
      → All (λ m. IsCached t m × IsPermitted p cfg m) msgs
      → ShowsPermitted p srv t cfg (map to_message_summary msgs)
  summaries t cfg [] a = tt
  summaries t cfg (m ∷ ms) ((i, q), a) = ((m, i, q, refl), summaries t cfg ms a)

  all-IsPermitted :
      (t : Tables) (cfg : Config) (msgs : List CachedMessage)
      → All (λ m. IsCached t m × (cached_message_allowed p cfg m ≡ true)) msgs
      → All (λ m. IsCached t m × IsPermitted p cfg m) msgs
  all-IsPermitted t cfg [] a = tt
  all-IsPermitted t cfg (m ∷ ms) ((i, q), a) =
      ((i, cached_message_allowed-IsPermitted p cfg m q), all-IsPermitted t cfg ms a)

  answer_thread-IsThread :
      (t : Tables) (id : Text) (cfg : Config) (limit : ℕ) (res : RefreshResult)
      (seed : CachedMessage)
      → limit_or_default limit ≤ max_read_window
      → IsSeed p srv id cfg t seed
      → Triple
          (Has t)
          (answer_thread p srv cfg limit res seed)
          (λ env r. Has t r × Carries (IsThread cfg t) env)
          Anywhere
  unfolding answer_thread
  answer_thread-IsThread t id cfg limit res seed l (i, e, q) =
      Triple-bind (Has t) (λ msgs r. Has t r × Found msgs)
        (λ env r. Has t r × Carries (IsThread cfg t) env) Anywhere _ _
        (Triple-with_error (Has t) (λ msgs r. Has t r × Found msgs) _ _
          (visible_thread_messages-Allowed (IsCached t) (Has t) p cfg (thread_messages_loader seed)
            limit (λ n k. thread_messages_loader-Returns t seed n k i)))
        λ msgs.
          Triple-pure (λ r. Has t r × Found msgs) (λ env r. Has t r × Carries (IsThread cfg t) env)
            Anywhere (thread_reply p srv res seed (include_seed_message msgs seed limit))
            (λ r (h, f). (h, replied msgs f))
    where
      Found : List CachedMessage → Type 0
      Found msgs =
          (length msgs ≤ limit_or_default limit)
          × All (λ m. IsCached t m × (cached_message_allowed p cfg m ≡ true)) msgs

      replied :
          (msgs : List CachedMessage)
          → Found msgs
          → Carries
              (IsThread cfg t)
              (thread_reply p srv res seed (include_seed_message msgs seed limit))
      replied msgs (few, a) =
          let shown = include_seed_message msgs seed limit in
          let env = read_envelope_for_messages res shown in
          read_ok-Carries (IsThread cfg t) env.status _ env.warnings (
            omega (arith, l, length-map shown, (include_seed_message_lem msgs seed limit few).1),
            summaries t cfg shown (
                All-include_seed_message (λ m. IsCached t m × IsPermitted p cfg m) msgs seed limit
                  (i, q) (all-IsPermitted t cfg msgs a)),
          )

  handle_thread-Leaves :
      (is_post : Bool) (body : Result Text ThreadRequest)
      → Leaves
          (handle_thread p srv is_post body)
          (λ env r. (cfg : Config) × (srv.config ≡ ok cfg) × Carries (IsThread cfg r.tables) env)
  unfolding handle_thread ◌>>◌
  handle_thread-Leaves is_post body =
      Leaves-bind Q (receive (codes "use POST for /v1/thread") is_post body) _ λ req.
        Leaves-bind Q (required_id p srv req.id) _ λ u.
          Leaves-bind-yields Q (λ limit. normalize_thread_limit req.max_messages ≡ some limit)
            (require (bad_request (codes "max_messages exceeds maximum read window"))
              (normalize_thread_limit req.max_messages))
            _ (require-Yields _ _)
            λ limit n.
              Leaves-bind-yields Q (λ cfg. srv.config ≡ ok cfg) _ _ (config-Yields p srv)
                λ cfg c.
                  Leaves-bind Q
                    (with_error internal_error (refresh_and_load_config p srv cfg default_limit)) _
                    λ res.
                      Leaves-weaken Q (λ env r. Carries (IsThread cfg r.tables) env) _
                        (λ env r v. (cfg, c, v))
                        (with_seed-Leaves p srv (λ t. Carries (IsThread cfg t)) req.id cfg res
                          (missed_thread p srv res) (answer_thread p srv cfg limit res)
                          (λ t n'.
                            read_ok-Carries (IsThread cfg t) status_error (missed_thread p srv res)
                              res.warnings (omega arith, tt))
                          (λ t seed i.
                            answer_thread-IsThread t req.id cfg limit res seed
                              (normalize_thread_limit-le req.max_messages limit n) i))
    where
      Q : Envelope ThreadResponse → Repository → Type 0
      Q env r = (cfg : Config) × (srv.config ≡ ok cfg) × Carries (IsThread cfg r.tables) env

-- A thread that succeeds, from any cache, with any remote source and any faults of the database: it has at
-- most maxReadWindow messages, and each is the summary of a row of the cache as the request leaves it, in a
-- configured folder of a configured account which has no domain policy, or with an address of a
-- configured domain in one of the row's headers.
pub handle_thread-Allowed :
    (p : Platform) (srv : Server) (is_post : Bool) (body : Result Text ThreadRequest)
    (r : Repository) (env : Envelope ThreadResponse)
    → (handle_thread p srv is_post body r).0 ≡ ok env
    → (cfg : Config) × (srv.config ≡ ok cfg)
      × Carries (IsThread p srv cfg (handle_thread p srv is_post body r).1.tables) env
handle_thread-Allowed p srv is_post body r env h =
    (handle_thread-Leaves p srv is_post body).at r env h
