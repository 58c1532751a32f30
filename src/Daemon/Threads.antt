-- ===== src/Daemon/Threads.antt =====
-- internal/daemon/daemon.go: what the thread command shows.
use native.Mathlib.Nat.{sub-zero}
use ksuite_mail.Common.{
  ℕ, zero, suc, ◌+◌, ◌-◌, ◌≤◌, ◌<◌, ◌≡◌, refl, ap, ◌∙◌, Bool, true, ◌||◌, List, [], ◌∷◌, ◌++◌, map,
  ◌⊎◌, inl, inr, arith, ok, ltb, Bool-cases, retain, take, drop, min, max, length, In, same_refl,
  length-take,
}
use ksuite_mail.Actions.{Action, ◌>>=◌}
use ksuite_mail.Mail.{Config, CachedMessage}
use ksuite_mail.Strings.{Platform}
use ksuite_mail.Daemon.Access.{default_limit, max_read_window, cached_message_allowed}
use ksuite_mail.Daemon.Paging.{
  scan_page, page_loop, scan_thread, thread_loop, limit_or_default, has_message,
  visible_thread_messages, include_seed_message,
}
use ksuite_mail.Daemon.Pages.{LoadsSlices, finish, shown, ahead, page_loop_lem, limit_pos}

abbrev identity : CachedMessage → CachedMessage
identity m = m

module _ (allowed : CachedMessage → Bool) (limit : ℕ) where
  -- A pass over a thread is a pass over a page with nothing to skip.
  scan_thread_lem :
      (results msgs : List CachedMessage)
      → scan_page allowed identity limit 0 0 results msgs ≡ record {
        full = (scan_thread allowed limit results msgs).full;
        skipped = 0;
        results = (scan_thread allowed limit results msgs).results;
      }
  unfolding scan_page scan_thread
  scan_thread_lem results [] = refl
  scan_thread_lem results (msg ∷ msgs) =
      ground (arith, scan_thread_lem results msgs, scan_thread_lem (results ++ msg ∷ []) msgs)

  thread_loop_lem :
      {S E : Type 0} (load : ℕ → ℕ → Action S E (List CachedMessage)) (rows : List CachedMessage)
      (batch_size : ℕ) (s : S)
      → 0 < batch_size
      → LoadsSlices load rows s
      → (rounds raw : ℕ) (results : List CachedMessage)
      → thread_loop allowed limit load batch_size rounds raw results s
        ≡ page_loop allowed identity limit 0 load batch_size rounds raw 0 results s
  unfolding thread_loop page_loop ◌>>=◌
  thread_loop_lem load rows batch_size s nonempty slices zero raw results = refl
  thread_loop_lem load rows batch_size s nonempty slices (suc rounds) raw results =
      elim (Bool-cases (ltb raw max_read_window)) [
        | inr over ↦ rw over
        | inl inside ↦
            let n = min batch_size (max_read_window - raw) in
            let msgs = take n (drop raw rows) in
            let p = scan_thread allowed limit results msgs in
            rw (inside, slices n raw (ground arith), scan_thread_lem results msgs)
              (elim (Bool-cases (p.full || ltb (length msgs) n)) [
                | inl last ↦ rw last
                | inr more ↦ rw more (
                    thread_loop_lem load rows batch_size s nonempty slices rounds
                      (raw + length msgs) p.results)
              ])
      ]

map-identity : (xs : List CachedMessage) → map identity xs ≡ xs
map-identity [] = refl
map-identity (x ∷ xs) = ap (λ r. x ∷ r) (map-identity xs)

-- visibleThreadMessages over a cache that reads as `rows`: of the first maxReadWindow rows, those
-- that the configuration allows, and of these at most `limit`, or defaultLimit where `limit` is 0.
pub visible_thread_messages_lem :
    {S E : Type 0} (p : Platform) (cfg : Config) (load : ℕ → ℕ → Action S E (List CachedMessage))
    (rows : List CachedMessage) (limit : ℕ) (s : S)
    → LoadsSlices load rows s
    → visible_thread_messages p cfg load limit s ≡ (
      ok (
          take
            (limit_or_default limit)
            (retain (cached_message_allowed p cfg) (take max_read_window rows))),
      s,
    )
unfolding visible_thread_messages
visible_thread_messages_lem p cfg load rows limit s slices =
    thread_loop_lem (cached_message_allowed p cfg) (limit_or_default limit) load rows
      (max default_limit (limit_or_default limit)) s (omega arith) slices max_read_window 0 []
    ∙ page_loop_lem (cached_message_allowed p cfg) identity (limit_or_default limit) 0 load rows s
        slices (max default_limit (limit_or_default limit)) (omega arith) max_read_window 0 0 []
        (omega arith) (omega arith) (limit_pos limit)
    ∙ unfold finish shown ahead in
      rw (
        sub-zero (limit_or_default limit),
        map-identity (retain (cached_message_allowed p cfg) (take max_read_window rows)),
      )

In-take : (n : ℕ) (m : CachedMessage) (xs : List CachedMessage) → In m (take n xs) → In m xs
In-take zero m xs i = absurd i
In-take (suc n) m [] i = i
In-take (suc n) m (x ∷ xs) (inl e) = inl e
In-take (suc n) m (x ∷ xs) (inr i) = inr (In-take n m xs i)

-- includeSeedMessage on messages that keep to the limit: the id of the seed is among the result, the result
-- keeps to the limit, and nothing is in it but the seed and the messages.
pub include_seed_message_lem :
    (msgs : List CachedMessage) (seed : CachedMessage) (limit : ℕ)
    → length msgs ≤ limit_or_default limit
    → let shown = include_seed_message msgs seed limit in
      (has_message seed.id shown ≡ true)
      × (length shown ≤ limit_or_default limit)
      × ((m : CachedMessage) → In m shown → (seed ≡ m) ⊎ In m msgs)
unfolding include_seed_message
include_seed_message_lem msgs seed limit h = elim (Bool-cases (has_message seed.id msgs)) [
  | inl e ↦ rw e (e, h, λ m i. inr i)
  | inr e ↦ rw e (
    rw (same_refl seed.id),
    omega (arith, length-take (limit_or_default limit - 1) msgs, limit_pos limit),
    λ m i. kept m i,
  )
]
  where
    kept :
        (m : CachedMessage)
        → In m (seed ∷ take (limit_or_default limit - 1) msgs)
        → (seed ≡ m) ⊎ In m msgs
    kept m (inl q) = inl q
    kept m (inr i) = inr (In-take (limit_or_default limit - 1) m msgs i)
