-- ===== src/Daemon/Rounds.antt =====
-- internal/daemon/daemon.go: the loops that read the cache in batches come to their end.
use ksuite_mail.Common.{
  ℕ, zero, suc, ◌+◌, ◌-◌, ◌≤◌, ◌<◌, ◌≡◌, refl, inl, inr, Bool, ◌||◌, List, [], Bool-cases,
  Result-cases, arith, ltb, length, min, max, Text,
}
use ksuite_mail.Actions.{Action, ◌>>=◌}
use ksuite_mail.Strings.{Platform}
use ksuite_mail.Mail.{Config, CachedMessage}
use ksuite_mail.Daemon.Access.{
  default_limit, max_read_window, cached_message_allowed, to_message_summary,
}
use ksuite_mail.Daemon.Paging.{
  scan_page, page_loop, limit_or_default, visible_message_page, scan_thread, thread_loop,
  visible_thread_messages, scan_context, context_loop, budget_or_default, bounded_thread_context,
}

module _ {S E : Type 0} (allowed : CachedMessage → Bool)
    (load : ℕ → ℕ → Action S E (List CachedMessage)) where
  page_loop_same :
      {B : Type 0} (out : CachedMessage → B) (limit offset batch_size : ℕ)
      → 0 < batch_size
      → (k m raw skipped : ℕ) (results : List B) (s : S) → max_read_window ≤ raw + k
      → max_read_window ≤ raw + m
      → page_loop allowed out limit offset load batch_size k raw skipped results s
        ≡ page_loop allowed out limit offset load batch_size m raw skipped results s
  unfolding page_loop ◌>>=◌
  page_loop_same out limit offset batch_size b zero zero raw skipped results s h i = refl
  page_loop_same out limit offset batch_size b zero (suc m) raw skipped results s h i = ground arith
  page_loop_same out limit offset batch_size b (suc k) zero raw skipped results s h i = ground arith
  page_loop_same out limit offset batch_size b (suc k) (suc m) raw skipped results s h i =
      elim (Bool-cases (ltb raw max_read_window)) [
        | inr over ↦ rw over refl
        | inl inside ↦
            let n = min batch_size (max_read_window - raw) in
            rw inside (elim (Result-cases (load n raw s).0) [
              | inr (e, q) ↦ rw q refl
              | inl (messages, q) ↦
                  let p = scan_page allowed out limit offset skipped results messages in
                  rw q (elim (Bool-cases (p.full || ltb (length messages) n)) [
                    | inl done ↦ rw done refl
                    | inr going ↦
                        let far : raw < raw + length messages = ground arith in
                        rw going (
                          page_loop_same out limit offset batch_size b k m _ p.skipped p.results _
                            (omega arith) (omega arith))
                  ])
            ])
      ]

  thread_loop_same :
      (limit batch_size : ℕ)
      → 0 < batch_size
      → (k m raw : ℕ) (results : List CachedMessage) (s : S) → max_read_window ≤ raw + k
      → max_read_window ≤ raw + m
      → thread_loop allowed limit load batch_size k raw results s
        ≡ thread_loop allowed limit load batch_size m raw results s
  unfolding thread_loop ◌>>=◌
  thread_loop_same limit batch_size b zero zero raw results s h i = refl
  thread_loop_same limit batch_size b zero (suc m) raw results s h i = ground arith
  thread_loop_same limit batch_size b (suc k) zero raw results s h i = ground arith
  thread_loop_same limit batch_size b (suc k) (suc m) raw results s h i =
      elim (Bool-cases (ltb raw max_read_window)) [
        | inr over ↦ rw over refl
        | inl inside ↦
            let n = min batch_size (max_read_window - raw) in
            rw inside (elim (Result-cases (load n raw s).0) [
              | inr (e, q) ↦ rw q refl
              | inl (messages, q) ↦
                  let p = scan_thread allowed limit results messages in
                  rw q (elim (Bool-cases (p.full || ltb (length messages) n)) [
                    | inl done ↦ rw done refl
                    | inr going ↦
                        let far : raw < raw + length messages = ground arith in
                        rw going (
                          thread_loop_same limit batch_size b k m _ p.results _ (omega arith)
                            (omega arith))
                  ])
            ])
      ]

  context_loop_same :
      (seed_id : Text) (budget k m raw used : ℕ) (out : List CachedMessage) (s : S)
      → max_read_window ≤ raw + k
      → max_read_window ≤ raw + m
      → context_loop allowed seed_id budget load k raw used out s
        ≡ context_loop allowed seed_id budget load m raw used out s
  unfolding context_loop ◌>>=◌
  context_loop_same seed_id budget zero zero raw used out s h i = refl
  context_loop_same seed_id budget zero (suc m) raw used out s h i = ground arith
  context_loop_same seed_id budget (suc k) zero raw used out s h i = ground arith
  context_loop_same seed_id budget (suc k) (suc m) raw used out s h i =
      elim (Bool-cases (ltb raw max_read_window)) [
        | inr over ↦ rw over refl
        | inl inside ↦
            rw inside
              (elim (Result-cases (load (min default_limit (max_read_window - raw)) raw s).0) [
                | inr (e, q) ↦ rw q refl
                | inl (messages, q) ↦
                    let p = scan_context allowed seed_id budget used out messages in
                    rw q (elim (Bool-cases (p.full || ltb (length messages) default_limit)) [
                      | inl done ↦ rw done refl
                      | inr going ↦
                          let far : raw < raw + length messages = ground arith in
                          rw going (
                            context_loop_same seed_id budget k m _ p.used p.out _ (omega arith)
                              (omega arith))
                    ])
              ])
      ]

-- The loops of visibleMessagePage, visibleThreadMessages and boundedThreadContext end within
-- maxReadWindow rounds, whatever the queries return or how they fail: given any larger number of
-- rounds, each leaves the same result and the same state.
pub visible_rounds :
    {S E : Type 0} (p : Platform) (cfg : Config) (load : ℕ → ℕ → Action S E (List CachedMessage))
    (limit offset budget : ℕ) (seed_id : Text) (rounds : ℕ) (s : S)
    → max_read_window ≤ rounds
    → let allowed = cached_message_allowed p cfg in
      let n = limit_or_default limit in
      (visible_message_page p cfg load limit offset s
        ≡ page_loop allowed to_message_summary n offset load
            (max default_limit (n + offset))
            rounds
            0
            0
            []
            s)
      × (visible_thread_messages p cfg load limit s
          ≡ thread_loop allowed n load (max default_limit n) rounds 0 [] s)
      × (bounded_thread_context p cfg seed_id budget load s
          ≡ context_loop allowed seed_id (budget_or_default budget) load rounds 0 0 [] s)
unfolding visible_message_page visible_thread_messages bounded_thread_context
visible_rounds p cfg load limit offset budget seed_id rounds s h =
    let allowed = cached_message_allowed p cfg in
    let n = limit_or_default limit in
    (
      page_loop_same allowed load to_message_summary n offset (max default_limit (n + offset))
          (omega arith) max_read_window rounds 0 0 [] s (omega arith) (omega arith),
      thread_loop_same allowed load n (max default_limit n) (omega arith) max_read_window rounds 0
          [] s (omega arith) (omega arith),
      context_loop_same allowed load seed_id (budget_or_default budget) max_read_window rounds 0 0
          [] s (omega arith) (omega arith),
    )
