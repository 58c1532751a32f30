-- ===== src/Daemon/Visible.antt =====
-- internal/daemon/daemon.go: what visibleMessagePage, visibleThreadMessages and boundedThreadContext
-- return of what the cache answers for each batch.
use ksuite_mail.Common.{
  ℕ, zero, suc, ◌+◌, ◌-◌, ◌≤◌, ◌<◌, ◌≡◌, refl, Bool, true, false, ◌||◌, not, Text, same, inl, inr,
  Bool-cases, List, [], ◌∷◌, ◌++◌, arith, ltb, leb, All, length, length-append, min,
}
use ksuite_mail.Strings.{Platform, byte_len}
use ksuite_mail.Mail.{Config, CachedMessage}
use ksuite_mail.Actions.{Action}
use ksuite_mail.Actions.Triples.{Triple, Triple-pure, Triple-bind}
use ksuite_mail.Actions.Leaves.{Anywhere, Triple-test, Triple-given}
use ksuite_mail.Daemon.Access.{
  cached_message_allowed, to_message_summary, default_limit, max_read_window,
}
use ksuite_mail.Daemon.Paging.{
  scan_page, page_loop, limit_or_default, visible_message_page, scan_thread, thread_loop,
  visible_thread_messages, scan_context, context_loop, budget_or_default, bounded_thread_context,
}
use ksuite_mail.Daemon.Pages.{limit_pos}

All-snoc :
    {A : Type 0} (P : A → Type 0) (xs : List A) (x : A) → All P xs → P x → All P (xs ++ x ∷ [])
All-snoc P [] x h q = (q, tt)
All-snoc P (y ∷ ys) x (p, h) q = (p, All-snoc P ys x h q)

-- From a state with `P`, each query leaves one with `P` and returns known messages.
abbrev pub Loads :
    {S E : Type 0}
    → (CachedMessage → Type 0)
    → (S → Type 0)
    → (ℕ → ℕ → Action S E (List CachedMessage))
    → Type 0
Loads Known P load =
    (n k : ℕ) → Triple P (load n k) (λ messages s. P s × All Known messages) Anywhere

left_false : (a b : Bool) → (a || b) ≡ false → a ≡ false
left_false a b h = ground arith

module _ {B : Type 0} (Known : CachedMessage → Type 0) (allowed : CachedMessage → Bool)
    (out : CachedMessage → B) (limit offset : ℕ) where
  abbrev IsOut : B → Type 0
  IsOut b = (m : CachedMessage) × Known m × (allowed m ≡ true) × (b ≡ out m)

  abbrev IsPage : List B → Type 0
  IsPage results = (length results ≤ limit) × All IsOut results

  scan_page-IsPage :
      (skipped : ℕ) (results : List B) (msgs : List CachedMessage)
      → length results < limit
      → All IsOut results
      → All Known msgs
      → IsPage (scan_page allowed out limit offset skipped results msgs).results
        × ((scan_page allowed out limit offset skipped results msgs).full ≡ false
            → length (scan_page allowed out limit offset skipped results msgs).results < limit)
  unfolding scan_page
  scan_page-IsPage skipped results [] l a k = ((omega arith, a), λ _. l)
  scan_page-IsPage skipped results (m ∷ ms) l a (n, k) = elim (Bool-cases (allowed m)) [
    | inr hidden ↦ rw hidden (scan_page-IsPage skipped results ms l a k)
    | inl seen ↦ elim (Bool-cases (ltb skipped offset)) [
      | inl early ↦ rw (seen, early) (scan_page-IsPage (skipped + 1) results ms l a k)
      | inr late ↦ elim (Bool-cases (leb limit (length (results ++ out m ∷ [])))) [
        | inl done ↦
            rw (seen, late, done)
              (
                (
                  omega (arith, length-append results (out m ∷ [])),
                  All-snoc IsOut results (out m) a (m, n, seen, refl),
                ),
                λ e. absurd (never e),
              )
        | inr room ↦
            rw (seen, late, room)
              (scan_page-IsPage skipped (results ++ out m ∷ []) ms (ground arith)
                (All-snoc IsOut results (out m) a (m, n, seen, refl)) k)
      ]
    ]
  ]
    where
      never : true ≡ false → ⊥
      never e = cc

  module _ {S E : Type 0} (P : S → Type 0) (load : ℕ → ℕ → Action S E (List CachedMessage))
      (loads : Loads Known P load) where
    page_loop-IsPage :
        (batch_size rounds raw skipped : ℕ) (results : List B)
        → length results < limit
        → All IsOut results
        → Triple P
            (page_loop allowed out limit offset load batch_size rounds raw skipped results)
            (λ found s. P s × IsPage found)
            Anywhere
    unfolding page_loop
    page_loop-IsPage batch_size zero raw skipped results l a =
        Triple-pure P (λ found s. P s × IsPage found) Anywhere results
          (λ s h. (h, (omega arith, a)))
    page_loop-IsPage batch_size (suc rounds) raw skipped results l a =
        let Q : List B → S → Type 0 = λ found s. P s × IsPage found in
        Triple-test P Q (ltb raw max_read_window) _ _
          (λ e.
            Triple-bind P (λ messages s. P s × All Known messages) Q Anywhere _ _ (loads _ raw)
              λ messages. Triple-given P Q _ λ k.
                let p = scan_page allowed out limit offset skipped results messages in
                let (w, room) = scan_page-IsPage skipped results messages l a k in
                Triple-test P Q
                  (p.full || ltb (length messages) (min batch_size (max_read_window - raw))) _ _
                  (λ e'. Triple-pure P Q Anywhere p.results (λ s h. (h, w)))
                  (λ e'.
                    page_loop-IsPage batch_size rounds (raw + length messages) p.skipped p.results
                      (room (left_false p.full _ e')) w.1))
          (λ e. Triple-pure P Q Anywhere results (λ s h. (h, (omega arith, a))))

-- The summaries that visibleMessagePage returns: there are at most `limit` of them, or defaultLimit where
-- `limit` is 0, and each is that of a loaded message which the configuration allows.
pub visible_message_page-Allowed :
    {S E : Type 0} (Known : CachedMessage → Type 0) (P : S → Type 0) (p : Platform) (cfg : Config)
    (load : ℕ → ℕ → Action S E (List CachedMessage)) (limit offset : ℕ)
    → Loads Known P load
    → Triple P
        (visible_message_page p cfg load limit offset)
        (λ results s.
          P s
          × ((length results ≤ limit_or_default limit)
              × All
                  (λ b.
                    (m : CachedMessage) × Known m
                    × (cached_message_allowed p cfg m ≡ true)
                    × (b ≡ to_message_summary m))
                  results))
        Anywhere
unfolding visible_message_page
visible_message_page-Allowed Known P p cfg load limit offset loads =
    page_loop-IsPage Known (cached_message_allowed p cfg) to_message_summary
      (limit_or_default limit) offset P load loads _ max_read_window 0 0 [] (limit_pos limit) tt

module _ (Known : CachedMessage → Type 0) (allowed : CachedMessage → Bool) (limit : ℕ) where
  abbrev IsAllowed : CachedMessage → Type 0
  IsAllowed m = Known m × (allowed m ≡ true)

  abbrev IsThread : List CachedMessage → Type 0
  IsThread results = (length results ≤ limit) × All IsAllowed results

  scan_thread-IsThread :
      (results msgs : List CachedMessage)
      → length results < limit
      → All IsAllowed results
      → All Known msgs
      → IsThread (scan_thread allowed limit results msgs).results
        × ((scan_thread allowed limit results msgs).full ≡ false
            → length (scan_thread allowed limit results msgs).results < limit)
  unfolding scan_thread
  scan_thread-IsThread results [] l a k = ((omega arith, a), λ _. l)
  scan_thread-IsThread results (m ∷ ms) l a (n, k) = elim (Bool-cases (allowed m)) [
    | inr hidden ↦ rw hidden (scan_thread-IsThread results ms l a k)
    | inl seen ↦ elim (Bool-cases (leb limit (length (results ++ m ∷ [])))) [
      | inl done ↦
          rw (seen, done)
            (
              (
                omega (arith, length-append results (m ∷ [])),
                All-snoc IsAllowed results m a (n, seen),
              ),
              λ e. absurd (never e),
            )
      | inr room ↦
          rw (seen, room)
            (scan_thread-IsThread (results ++ m ∷ []) ms (ground arith)
              (All-snoc IsAllowed results m a (n, seen)) k)
    ]
  ]
    where
      never : true ≡ false → ⊥
      never e = cc

  module _ {S E : Type 0} (P : S → Type 0) (load : ℕ → ℕ → Action S E (List CachedMessage))
      (loads : Loads Known P load) where
    thread_loop-IsThread :
        (batch_size rounds raw : ℕ) (results : List CachedMessage)
        → length results < limit
        → All IsAllowed results
        → Triple P
            (thread_loop allowed limit load batch_size rounds raw results)
            (λ found s. P s × IsThread found)
            Anywhere
    unfolding thread_loop
    thread_loop-IsThread batch_size zero raw results l a =
        Triple-pure P (λ found s. P s × IsThread found) Anywhere results
          (λ s h. (h, (omega arith, a)))
    thread_loop-IsThread batch_size (suc rounds) raw results l a =
        let Q : List CachedMessage → S → Type 0 = λ found s. P s × IsThread found in
        Triple-test P Q (ltb raw max_read_window) _ _
          (λ e.
            Triple-bind P (λ messages s. P s × All Known messages) Q Anywhere _ _ (loads _ raw)
              λ messages. Triple-given P Q _ λ k.
                let p = scan_thread allowed limit results messages in
                let (w, room) = scan_thread-IsThread results messages l a k in
                Triple-test P Q
                  (p.full || ltb (length messages) (min batch_size (max_read_window - raw))) _ _
                  (λ e'. Triple-pure P Q Anywhere p.results (λ s h. (h, w)))
                  (λ e'.
                    thread_loop-IsThread batch_size rounds (raw + length messages) p.results
                      (room (left_false p.full _ e')) w.1))
          (λ e. Triple-pure P Q Anywhere results (λ s h. (h, (omega arith, a))))

-- The same of visibleThreadMessages, for the messages themselves.
pub visible_thread_messages-Allowed :
    {S E : Type 0} (Known : CachedMessage → Type 0) (P : S → Type 0) (p : Platform) (cfg : Config)
    (load : ℕ → ℕ → Action S E (List CachedMessage)) (limit : ℕ)
    → Loads Known P load
    → Triple P
        (visible_thread_messages p cfg load limit)
        (λ results s.
          P s
          × ((length results ≤ limit_or_default limit)
              × All (λ m. Known m × (cached_message_allowed p cfg m ≡ true)) results))
        Anywhere
unfolding visible_thread_messages
visible_thread_messages-Allowed Known P p cfg load limit loads =
    thread_loop-IsThread Known (cached_message_allowed p cfg) (limit_or_default limit) P load loads
      _ max_read_window 0 [] (limit_pos limit) tt

module _ (Known : CachedMessage → Type 0) (allowed : CachedMessage → Bool) (seed_id : Text)
    (budget : ℕ) where
  scan_context-Known :
      (used : ℕ) (out ms : List CachedMessage)
      → All Known out
      → All Known ms
      → All Known (scan_context allowed seed_id budget used out ms).out
  unfolding scan_context
  scan_context-Known used out [] a k = a
  scan_context-Known used out (m ∷ ms) a (n, k) =
      elim (Bool-cases (not (allowed m) || same m.id seed_id)) [
        | inl hidden ↦ rw hidden (scan_context-Known used out ms a k)
        | inr seen ↦ elim (Bool-cases (ltb budget (used + byte_len m.snippet))) [
          | inl over ↦ rw (seen, over) a
          | inr fits ↦
              rw (seen, fits)
                (scan_context-Known (used + byte_len m.snippet) (out ++ m ∷ []) ms
                  (All-snoc Known out m a n) k)
        ]
      ]

  module _ {S E : Type 0} (P : S → Type 0) (load : ℕ → ℕ → Action S E (List CachedMessage))
      (loads : Loads Known P load) where
    context_loop-Known :
        (rounds raw used : ℕ) (out : List CachedMessage)
        → All Known out
        → Triple P
            (context_loop allowed seed_id budget load rounds raw used out)
            (λ found s. P s × All Known found)
            Anywhere
    unfolding context_loop
    context_loop-Known zero raw used out a =
        Triple-pure P (λ found s. P s × All Known found) Anywhere out (λ s h. (h, a))
    context_loop-Known (suc rounds) raw used out a =
        let Q : List CachedMessage → S → Type 0 = λ found s. P s × All Known found in
        Triple-test P Q (ltb raw max_read_window) _ _
          (λ e. Triple-bind P Q Q Anywhere _ _ (loads _ raw) λ messages. Triple-given P Q _ λ k.
            let p = scan_context allowed seed_id budget used out messages in
            let w = scan_context-Known used out messages a k in
            Triple-test P Q (p.full || ltb (length messages) default_limit) _ _
              (λ e'. Triple-pure P Q Anywhere p.out (λ s h. (h, w)))
              (λ e'. context_loop-Known rounds (raw + length messages) p.used p.out w))
          (λ e. Triple-pure P Q Anywhere out (λ s h. (h, a)))

-- boundedThreadContext returns messages that were loaded.
pub bounded_thread_context-Known :
    {S E : Type 0} (Known : CachedMessage → Type 0) (P : S → Type 0) (p : Platform) (cfg : Config)
    (seed_id : Text) (budget : ℕ) (load : ℕ → ℕ → Action S E (List CachedMessage))
    → Loads Known P load
    → Triple P
        (bounded_thread_context p cfg seed_id budget load)
        (λ found s. P s × All Known found)
        Anywhere
unfolding bounded_thread_context
bounded_thread_context-Known Known P p cfg seed_id budget load loads =
    context_loop-Known Known (cached_message_allowed p cfg) seed_id (budget_or_default budget) P
      load loads max_read_window 0 0 [] tt
