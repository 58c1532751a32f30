-- ===== src/Daemon/Paging.antt =====
-- internal/daemon/daemon.go: the loops that read the cache in batches and keep what the request may
-- see. `load limit offset` is a query of the cache; a batch that it returns may depend on the state.
-- The loop tests rawOffset < maxReadWindow and each round adds at least one to rawOffset, so
-- `max_read_window` rounds are enough.
use ksuite_mail.Common.{
  ℕ, zero, suc, ◌+◌, ◌-◌, Bool, true, false, not, ◌||◌, List, [], ◌∷◌, ◌++◌, ltb, leb, ◌==◌,
  if◌then◌else◌, any, take, min, max, length, Text, same,
}
use ksuite_mail.Actions.{Action, pure, ◌>>=◌}
use ksuite_mail.Strings.{Platform, byte_len}
use ksuite_mail.Mail.{Config, CachedMessage}
use ksuite_mail.Api.{MessageSummary}
use ksuite_mail.Daemon.Access.{
  default_limit, default_budget, max_read_window, cached_message_allowed, to_message_summary,
}

-- What a pass over one batch leaves: whether the limit was reached, the visible messages skipped so
-- far, and the results.
pub record Pass (B : Type 0) : Type 0 where
  pub full : Bool
  pub skipped : ℕ
  pub results : List B

module _ {B : Type 0} (allowed : CachedMessage → Bool) (out : CachedMessage → B)
    (limit offset : ℕ) where
  unfoldable pub scan_page : ℕ → List B → List CachedMessage → Pass B
  scan_page skipped results [] = record { full = false; skipped = skipped; results = results }
  scan_page skipped results (msg ∷ msgs) =
      let hidden = scan_page skipped results msgs in
      let passed_over = scan_page (skipped + 1) results msgs in
      let taken = results ++ out msg ∷ [] in
      let more = scan_page skipped taken msgs in
      if not (allowed msg)
      then hidden
      else if ltb skipped offset
      then passed_over
      else if leb limit (length taken)
      then record { full = true; skipped = skipped; results = taken }
      else more

  module _ {S E : Type 0} (load : ℕ → ℕ → Action S E (List CachedMessage)) (batch_size : ℕ) where
    unfoldable pub page_loop : ℕ → ℕ → ℕ → List B → Action S E (List B)
    unfolding scan_page ◌>>=◌
    page_loop zero raw_offset skipped results = pure results
    page_loop (suc rounds) raw_offset skipped results =
        let read_limit = min batch_size (max_read_window - raw_offset) in
        let round = load read_limit raw_offset >>= λ messages.
        let p = scan_page skipped results messages in
        let rest = page_loop rounds (raw_offset + length messages) p.skipped p.results in
        if p.full || ltb (length messages) read_limit then pure p.results else rest in
        if ltb raw_offset max_read_window then round else pure results

abbrev pub limit_or_default : ℕ → ℕ
limit_or_default limit = if limit == 0 then default_limit else limit

-- What a pass over one batch of a thread leaves.
pub record ThreadPass : Type 0 where
  pub full : Bool
  pub results : List CachedMessage

module _ (allowed : CachedMessage → Bool) (limit : ℕ) where
  unfoldable pub scan_thread : List CachedMessage → List CachedMessage → ThreadPass
  scan_thread results [] = record { full = false; results = results }
  scan_thread results (msg ∷ msgs) =
      let hidden = scan_thread results msgs in
      let taken = results ++ msg ∷ [] in
      let more = scan_thread taken msgs in
      if not (allowed msg)
      then hidden
      else if leb limit (length taken)
      then record { full = true; results = taken }
      else more

  module _ {S E : Type 0} (load : ℕ → ℕ → Action S E (List CachedMessage)) (batch_size : ℕ) where
    unfoldable pub thread_loop : ℕ → ℕ → List CachedMessage → Action S E (List CachedMessage)
    unfolding scan_thread ◌>>=◌
    thread_loop zero raw_offset results = pure results
    thread_loop (suc rounds) raw_offset results =
        let read_limit = min batch_size (max_read_window - raw_offset) in
        let round = load read_limit raw_offset >>= λ messages.
        let p = scan_thread results messages in
        let rest = thread_loop rounds (raw_offset + length messages) p.results in
        if p.full || ltb (length messages) read_limit then pure p.results else rest in
        if ltb raw_offset max_read_window then round else pure results

-- includeSeedMessage
abbrev pub has_message : Text → List CachedMessage → Bool
has_message id msgs = any (λ m. same m.id id) msgs

unfoldable pub include_seed_message : List CachedMessage → CachedMessage → ℕ → List CachedMessage
include_seed_message msgs seed limit =
    if has_message seed.id msgs then msgs else seed ∷ take (limit_or_default limit - 1) msgs

-- What a pass over one batch of a context leaves: whether the budget stopped it, the bytes of the
-- snippets so far, and the messages.
pub record ContextPass : Type 0 where
  pub full : Bool
  pub used : ℕ
  pub out : List CachedMessage

module _ (allowed : CachedMessage → Bool) (seed_id : Text) (budget : ℕ) where
  unfoldable pub scan_context : ℕ → List CachedMessage → List CachedMessage → ContextPass
  scan_context used out [] = record { full = false; used = used; out = out }
  scan_context used out (msg ∷ msgs) =
      let skip = scan_context used out msgs in
      let used' = used + byte_len msg.snippet in
      let more = scan_context used' (out ++ msg ∷ []) msgs in
      if not (allowed msg) || same msg.id seed_id
      then skip
      else if ltb budget used'
      then record { full = true; used = used; out = out }
      else more

  module _ {S E : Type 0} (load : ℕ → ℕ → Action S E (List CachedMessage)) where
    unfoldable pub context_loop : ℕ → ℕ → ℕ → List CachedMessage → Action S E (List CachedMessage)
    unfolding scan_context ◌>>=◌
    context_loop zero raw_offset used out = pure out
    context_loop (suc rounds) raw_offset used out =
        let round =
          load (min default_limit (max_read_window - raw_offset)) raw_offset >>= λ messages.
          let p = scan_context used out messages in
          let rest = context_loop rounds (raw_offset + length messages) p.used p.out in
          if p.full || ltb (length messages) default_limit then pure p.out else rest in
        if ltb raw_offset max_read_window then round else pure out

abbrev pub budget_or_default : ℕ → ℕ
budget_or_default budget = if budget == 0 then default_budget else budget

module _ {S E : Type 0} (p : Platform) (cfg : Config) where
  -- visibleMessagePage; its callers pass a limit and an offset that are not negative.
  unfoldable pub visible_message_page :
      (ℕ → ℕ → Action S E (List CachedMessage)) → ℕ → ℕ → Action S E (List MessageSummary)
  unfolding page_loop
  visible_message_page load limit offset =
      let n = limit_or_default limit in
      page_loop (cached_message_allowed p cfg) to_message_summary n offset load
        (max default_limit (n + offset)) max_read_window 0 0 []

  -- visibleThreadMessages
  unfoldable pub visible_thread_messages :
      (ℕ → ℕ → Action S E (List CachedMessage)) → ℕ → Action S E (List CachedMessage)
  unfolding thread_loop
  visible_thread_messages load limit =
      let n = limit_or_default limit in
      thread_loop (cached_message_allowed p cfg) n load (max default_limit n) max_read_window 0 []

  -- boundedThreadContext
  unfoldable pub bounded_thread_context :
      Text → ℕ → (ℕ → ℕ → Action S E (List CachedMessage)) → Action S E (List CachedMessage)
  unfolding context_loop
  bounded_thread_context seed_id budget load =
      context_loop (cached_message_allowed p cfg) seed_id (budget_or_default budget) load
        max_read_window 0 0 []
