-- ===== src/Tests/Paging.antt =====
-- A run of the batched loops over two rows.
use ksuite_mail.Common.{ℕ, ◌≡◌, List, [], ◌∷◌, take, drop, codes, arith}
use ksuite_mail.Actions.{Action, pure}
use ksuite_mail.Mail.{CachedMessage}
use ksuite_mail.Cache.Session.{Repository}
use ksuite_mail.Daemon.Access.{cached_message_allowed, to_message_summary}
use ksuite_mail.Daemon.Paging.{
  page_loop, visible_message_page, thread_loop, visible_thread_messages, context_loop,
  bounded_thread_context,
}
use ksuite_mail.Daemon.Rounds.{visible_rounds}
use ksuite_mail.Tests.Data.{platform, config, filled, message, other}

abbrev batches : ℕ → ℕ → Action Repository (Unit {0}) (List CachedMessage)
batches n raw = pure (take n (drop raw (message ∷ other ∷ [])))

visible_rounds_example :
    (visible_message_page platform config batches 1 0 filled
      ≡ page_loop
          (cached_message_allowed platform config)
          to_message_summary
          1
          0
          batches
          100
          2000
          0
          0
          []
          filled)
    × (visible_thread_messages platform config batches 1 filled
        ≡ thread_loop (cached_message_allowed platform config) 1 batches 100 2000 0 [] filled)
    × (bounded_thread_context platform config (codes "m") 10 batches filled
        ≡ context_loop
            (cached_message_allowed platform config)
            (codes "m")
            10
            batches
            2000
            0
            0
            []
            filled)
visible_rounds_example =
    visible_rounds platform config batches 1 0 10 (codes "m") 2000 filled (omega arith)
