-- ===== src/Daemon/Budget.antt =====
-- internal/daemon/daemon.go: what handleContext shows, and how much.
use ksuite_mail.Common.{
  ℕ, ◌+◌, ◌-◌, ◌≤◌, ◌≡◌, refl, sym, ap, subst, ◌⊎◌, Bool, true, false, not, ◌||◌, inl, inr,
  Bool-cases, List, [], ◌∷◌, Result, ok, arith, ltb, ltb→le, All, Text, codes, same, min,
}
use ksuite_mail.Strings.{Platform, byte_len, is_empty}
use ksuite_mail.Mail.{Config, CachedMessage}
use ksuite_mail.Api.{status_error, Envelope, MessageSummary, ContextRequest, ContextResponse}
use ksuite_mail.Actions.{◌>>◌, with_error}
use ksuite_mail.Actions.Triples.{Triple, Triple-pure, Triple-bind}
use ksuite_mail.Actions.Leaves.{
  Anywhere, Leaves, Leaves-bind, Leaves-bind-yields, Leaves-weaken, Triple-with_error,
}
use ksuite_mail.Cache.Tables.{Tables}
use ksuite_mail.Daemon.Permitted.{cached_message_allowed-IsPermitted}
use ksuite_mail.Daemon.Cached.{IsCached, IsMissed, Has, thread_messages_loader-Returns}
use ksuite_mail.Daemon.Visible.{bounded_thread_context-Known}
use ksuite_mail.Cache.Session.{Repository}
use ksuite_mail.Refresh.Content.{strip_embedded_replies}
use ksuite_mail.Refresh.Truncated.{truncate_text_bytes-IsCut}
use ksuite_mail.Refresh.Cycle.{RefreshResult}
use ksuite_mail.Daemon.Access.{
  default_limit, default_context_max, cached_message_allowed, normalize_context_budget,
  to_message_summary, to_message_detail,
}
use ksuite_mail.Daemon.Scope.{read_envelope_for_messages}
use ksuite_mail.Daemon.Server.{
  Server, internal_error, bad_request, require, refresh_and_load_config, read_ok,
}
use ksuite_mail.Daemon.Handlers.{
  context_reply, missed_context, answer_context, handle_context, required_id,
}
use ksuite_mail.Daemon.Replies.{no_detail, timeline_from, seed_body, thread_messages_loader}
use ksuite_mail.Daemon.Shown.{
  Carries, read_ok-Carries, receive-Yields, config-Yields, ShowsPermitted,
}
use ksuite_mail.Daemon.Showing.{IsSeed, with_seed-Leaves}

-- The bytes of the snippets of a timeline.
abbrev pub timeline_bytes : List MessageSummary → ℕ
timeline_bytes [] = 0
timeline_bytes (m ∷ ms) = byte_len m.snippet + timeline_bytes ms

-- The summary of a known message that is allowed and is not the seed.
abbrev IsSummary :
    (CachedMessage → Type 0) → (CachedMessage → Bool) → Text → MessageSummary → Type 0
IsSummary Known allowed seed_id b =
    (m : CachedMessage) × Known m
    × (allowed m ≡ true)
    × (same m.id seed_id ≡ false)
    × (b ≡ to_message_summary m)

record IsTimeline (Known : CachedMessage → Type 0) (allowed : CachedMessage → Bool) (seed_id : Text)
    (budget used : ℕ) (found : List MessageSummary × ℕ) : Type 0 where
  counted : used + timeline_bytes found.0 ≡ found.1
  bounded : found.1 ≤ budget
  shown : All (IsSummary Known allowed seed_id) found.0

timeline_from-IsTimeline :
    (Known : CachedMessage → Type 0) (allowed : CachedMessage → Bool) (seed_id : Text)
    (budget used : ℕ) (msgs : List CachedMessage)
    → used ≤ budget
    → All Known msgs
    → IsTimeline Known allowed seed_id budget used (timeline_from allowed seed_id budget used msgs)
unfolding timeline_from
timeline_from-IsTimeline Known allowed seed_id budget used [] l k = record {
  counted = omega arith;
  bounded = l;
  shown = tt;
}
timeline_from-IsTimeline Known allowed seed_id budget used (m ∷ ms) l (n, k) =
    elim (Bool-cases (not (allowed m) || same m.id seed_id)) [
      | inl hidden ↦ rw hidden (timeline_from-IsTimeline Known allowed seed_id budget used ms l k)
      | inr seen ↦ elim (Bool-cases (ltb budget (used + byte_len m.snippet))) [
        | inl over ↦ rw (seen, over) (record { counted = omega arith; bounded = l; shown = tt })
        | inr fits ↦
            let rest =
              timeline_from-IsTimeline Known allowed seed_id budget (used + byte_len m.snippet) ms
                (ltb→le budget (used + byte_len m.snippet) fits) k in
            rw (seen, fits)
              (record {
                counted = omega (arith, rest.counted);
                bounded = rest.bounded;
                shown = ((m, n, ground arith, ground arith, refl), rest.shown);
              })
      ]
    ]

seed_body-le :
    (seed : CachedMessage) (remaining : ℕ) → byte_len (seed_body seed remaining) ≤ remaining
unfolding seed_body byte_len
seed_body-le seed remaining = elim (Bool-cases (is_empty seed.body_text)) [
  | inl e ↦ rw e (omega arith)
  | inr e ↦ elim (Bool-cases (ltb 0 remaining)) [
    | inl some_left ↦
        let cut =
          truncate_text_bytes-IsCut (strip_embedded_replies seed.body_text)
            (min default_context_max remaining) in
        rw (e, some_left) (omega (arith, cut.fits))
    | inr none_left ↦ rw (e, none_left) (omega arith)
  ]
]

module _ (p : Platform) (srv : Server) where
  -- The detail of the seed, with its body cut to what the timeline leaves of the budget, and summaries of
  -- other rows; or nothing, where the seed was missed.
  abbrev pub HasSeed : Text → Config → Tables → ContextResponse → Type 0
  HasSeed id cfg t resp =
      (IsMissed id t × (resp.seed ≡ no_detail) × (resp.timeline ≡ []))
      ⊎ ((seed : CachedMessage) × IsSeed p srv id cfg t seed
          × (resp.seed
              ≡ to_message_detail seed
                  (seed_body seed (resp.message_budget - timeline_bytes resp.timeline)) true)
          × All (λ b. same b.id seed.id ≡ false) resp.timeline)

  -- The snippets and the body of the seed are within the budget, and the rows are permitted.
  abbrev pub IsContext : Text → Config → Tables → ContextResponse → Type 0
  IsContext id cfg t resp =
      (timeline_bytes resp.timeline + byte_len resp.seed.body_text ≤ resp.message_budget)
      × ShowsPermitted p srv t cfg resp.timeline
      × HasSeed id cfg t resp

  others :
      (t : Tables) (cfg : Config) (seed_id : Text) (timeline : List MessageSummary)
      → All (IsSummary (IsCached t) (cached_message_allowed p cfg) seed_id) timeline
      → ShowsPermitted p srv t cfg timeline × All (λ b. same b.id seed_id ≡ false) timeline
  others t cfg seed_id [] a = (tt, tt)
  others t cfg seed_id (b ∷ bs) ((m, i, q, n, e), a) =
      let (s, o) = others t cfg seed_id bs a in
      (
        ((m, i, cached_message_allowed-IsPermitted p cfg m q, e), s),
        (subst (λ (x : MessageSummary). same x.id seed_id ≡ false) (sym e) n, o),
      )

  context_reply-IsContext :
      (t : Tables) (id : Text) (cfg : Config) (budget : ℕ) (res : RefreshResult)
      (seed : CachedMessage) (msgs : List CachedMessage)
      → IsSeed p srv id cfg t seed
      → All (IsCached t) msgs
      → Carries (IsContext id cfg t) (context_reply p srv cfg budget res seed msgs)
  context_reply-IsContext t id cfg budget res seed msgs i k =
      let found = timeline_from (cached_message_allowed p cfg) seed.id budget 0 msgs in
      let w =
        timeline_from-IsTimeline (IsCached t) (cached_message_allowed p cfg) seed.id budget 0 msgs
          (omega arith) k in
      let (s, o) = others t cfg seed.id found.0 w.shown in
      let env = read_envelope_for_messages res (seed ∷ msgs) in
      let used : found.1 ≡ timeline_bytes found.0 = omega (arith, w.counted) in
      read_ok-Carries (IsContext id cfg t) env.status _ env.warnings (
        omega (arith, w.counted, w.bounded, seed_body-le seed (budget - found.1)),
        s,
        inr (seed, i, ap (λ n. to_message_detail seed (seed_body seed (budget - n)) true) used, o),
      )

  answer_context-IsContext :
      (t : Tables) (id : Text) (cfg : Config) (budget : ℕ) (res : RefreshResult)
      (seed : CachedMessage)
      → IsSeed p srv id cfg t seed
      → Triple
          (Has t)
          (answer_context p srv cfg budget res seed)
          (λ env r. Has t r × Carries (IsContext id cfg t) env)
          Anywhere
  unfolding answer_context
  answer_context-IsContext t id cfg budget res seed i =
      Triple-bind (Has t) (λ msgs r. Has t r × All (IsCached t) msgs)
        (λ env r. Has t r × Carries (IsContext id cfg t) env) Anywhere _ _
        (Triple-with_error (Has t) (λ msgs r. Has t r × All (IsCached t) msgs) _ _
          (bounded_thread_context-Known (IsCached t) (Has t) p cfg seed.id budget
            (thread_messages_loader seed) (λ n k. thread_messages_loader-Returns t seed n k i.0)))
        λ msgs.
          Triple-pure (λ r. Has t r × All (IsCached t) msgs)
            (λ env r. Has t r × Carries (IsContext id cfg t) env) Anywhere
            (context_reply p srv cfg budget res seed msgs)
            (λ r (h, k). (h, context_reply-IsContext t id cfg budget res seed msgs i k))

  missed-IsContext :
      (t : Tables) (id : Text) (cfg : Config) (res : RefreshResult)
      → IsMissed id t
      → Carries (IsContext id cfg t) (read_ok status_error (missed_context p srv res) res.warnings)
  unfolding byte_len
  missed-IsContext t id cfg res n =
      read_ok-Carries (IsContext id cfg t) status_error (missed_context p srv res) res.warnings
        (omega arith, tt, inl (n, refl, refl))

  handle_context-Leaves :
      (is_post : Bool) (body : Result Text ContextRequest)
      → Leaves (handle_context p srv is_post body) (λ env r.
        (req : ContextRequest) × (cfg : Config) × (body ≡ ok req)
        × (srv.config ≡ ok cfg)
        × Carries (IsContext req.id cfg r.tables) env)
  unfolding handle_context ◌>>◌
  handle_context-Leaves is_post body =
      Leaves-bind-yields Q (λ req. body ≡ ok req) _ _ (receive-Yields p srv _ is_post body)
        λ req b. Leaves-bind Q (required_id p srv req.id) _ λ u.
          Leaves-bind Q
            (require (bad_request (codes "budget exceeds maximum context budget"))
              (normalize_context_budget req.budget))
            _
            λ budget.
              Leaves-bind-yields Q (λ cfg. srv.config ≡ ok cfg) _ _ (config-Yields p srv)
                λ cfg c.
                  Leaves-bind Q
                    (with_error internal_error (refresh_and_load_config p srv cfg default_limit)) _
                    λ res.
                      Leaves-weaken Q (λ env r. Carries (IsContext req.id cfg r.tables) env) _
                        (λ env r v. (req, cfg, b, c, v))
                        (with_seed-Leaves p srv (λ t. Carries (IsContext req.id cfg t)) req.id cfg
                          res (missed_context p srv res) (answer_context p srv cfg budget res)
                          (λ t n. missed-IsContext t req.id cfg res n)
                          (λ t seed i. answer_context-IsContext t req.id cfg budget res seed i))
    where
      Q : Envelope ContextResponse → Repository → Type 0
      Q env r =
          (req : ContextRequest) × (cfg : Config) × (body ≡ ok req)
          × (srv.config ≡ ok cfg)
          × Carries (IsContext req.id cfg r.tables) env

-- A context that succeeds, from any cache, with any remote source and any faults of the database: the
-- snippets of the timeline and the body of the seed have together no more bytes than the budget that the
-- response states. The seed is a row with the requested id in the cache as the request leaves it, with its
-- body cut to what the timeline leaves of the budget, and the timeline has summaries of other rows; each
-- of these rows is in a configured folder of a configured account which has no domain policy, or has an
-- address of a configured domain in one of its headers. Or no row has the requested id, and the seed and
-- the timeline are empty.
pub handle_context-IsContext :
    (p : Platform) (srv : Server) (is_post : Bool) (body : Result Text ContextRequest)
    (r : Repository) (env : Envelope ContextResponse)
    → (handle_context p srv is_post body r).0 ≡ ok env
    → (req : ContextRequest) × (cfg : Config) × (body ≡ ok req)
      × (srv.config ≡ ok cfg)
      × Carries (IsContext p srv req.id cfg (handle_context p srv is_post body r).1.tables) env
handle_context-IsContext p srv is_post body r env h =
    (handle_context-Leaves p srv is_post body).at r env h
