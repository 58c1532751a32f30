-- ===== src/Daemon/Contexts.antt =====
-- internal/daemon/daemon.go: what boundedThreadContext returns, whatever the cache answers.
use ksuite_mail.Common.{
  ℕ, zero, suc, ◌+◌, ◌-◌, ◌≤◌, ◌≡◌, refl, Bool, true, false, not, ◌||◌, inl, inr, Bool-cases, List,
  [], ◌∷◌, ◌++◌, ok, arith, ltb, ltb→le, All, Text, same, length, min,
}
use ksuite_mail.Strings.{Platform, byte_len}
use ksuite_mail.Mail.{Config, CachedMessage}
use ksuite_mail.Actions.{Action}
use ksuite_mail.Actions.Keeps.{Yields, Yields-pure, Yields-if, Yields-bind}
use ksuite_mail.Daemon.Access.{cached_message_allowed, default_limit, max_read_window}
use ksuite_mail.Daemon.Paging.{
  scan_context, context_loop, budget_or_default, bounded_thread_context,
}

-- The bytes of the snippets together.
abbrev pub snippet_bytes : List CachedMessage → ℕ
snippet_bytes [] = 0
snippet_bytes (m ∷ ms) = byte_len m.snippet + snippet_bytes ms

snippet_bytes-snoc :
    (ms : List CachedMessage) (m : CachedMessage)
    → snippet_bytes (ms ++ m ∷ []) ≡ snippet_bytes ms + byte_len m.snippet
snippet_bytes-snoc [] m = omega arith
snippet_bytes-snoc (x ∷ xs) m = omega (arith, snippet_bytes-snoc xs m)

module _ (allowed : CachedMessage → Bool) (seed_id : Text) (budget : ℕ) where
  abbrev IsShown : CachedMessage → Type 0
  IsShown m = (allowed m ≡ true) × (same m.id seed_id ≡ false)

  record IsWithin (used : ℕ) (out : List CachedMessage) : Type 0 where
    counted : snippet_bytes out ≡ used
    bounded : used ≤ budget
    shown : All IsShown out

  abbrev IsBounded : List CachedMessage → Type 0
  IsBounded out = (snippet_bytes out ≤ budget) × All IsShown out

  IsWithin-IsBounded : (used : ℕ) (out : List CachedMessage) → IsWithin used out → IsBounded out
  IsWithin-IsBounded used out w = (omega (arith, w.counted, w.bounded), w.shown)

  shown-snoc :
      (ms : List CachedMessage) (m : CachedMessage)
      → All IsShown ms
      → IsShown m
      → All IsShown (ms ++ m ∷ [])
  shown-snoc [] m a s = (s, tt)
  shown-snoc (x ∷ xs) m (b, a) s = (b, shown-snoc xs m a s)

  scan_context-IsWithin :
      (used : ℕ) (out ms : List CachedMessage)
      → IsWithin used out
      → IsWithin
          (scan_context allowed seed_id budget used out ms).used
          (scan_context allowed seed_id budget used out ms).out
  unfolding scan_context
  scan_context-IsWithin used out [] w = w
  scan_context-IsWithin used out (m ∷ ms) w =
      elim (Bool-cases (not (allowed m) || same m.id seed_id)) [
        | inl hidden ↦ rw hidden (scan_context-IsWithin used out ms w)
        | inr seen ↦ elim (Bool-cases (ltb budget (used + byte_len m.snippet))) [
          | inl over ↦ rw (seen, over) w
          | inr fits ↦
              rw (seen, fits)
                (scan_context-IsWithin (used + byte_len m.snippet) (out ++ m ∷ []) ms (record {
                  counted = omega (arith, snippet_bytes-snoc out m, w.counted);
                  bounded = ltb→le budget (used + byte_len m.snippet) fits;
                  shown = shown-snoc out m w.shown (ground arith, ground arith);
                }))
        ]
      ]

  module _ {S E : Type 0} (load : ℕ → ℕ → Action S E (List CachedMessage)) where
    context_loop-Yields :
        (rounds raw used : ℕ) (out : List CachedMessage)
        → IsWithin used out
        → Yields (context_loop allowed seed_id budget load rounds raw used out) IsBounded
    unfolding context_loop
    context_loop-Yields zero raw used out w =
        Yields-pure IsBounded out (IsWithin-IsBounded used out w)
    context_loop-Yields (suc rounds) raw used out w =
        Yields-if IsBounded (ltb raw max_read_window) _ _
          (Yields-bind IsBounded (load (min default_limit (max_read_window - raw)) raw) _
            λ messages.
              let p = scan_context allowed seed_id budget used out messages in
              let w' = scan_context-IsWithin used out messages w in
              Yields-if IsBounded (p.full || ltb (length messages) default_limit) _ _
                (Yields-pure IsBounded p.out (IsWithin-IsBounded p.used p.out w'))
                (context_loop-Yields rounds (raw + length messages) p.used p.out w'))
          (Yields-pure IsBounded out (IsWithin-IsBounded used out w))

-- The messages that boundedThreadContext returns, whatever the cache gives for each batch: the
-- snippets have together no more bytes than the budget (defaultBudget where it is 0), each message
-- is one that the configuration allows, and none is the seed.
pub bounded_thread_context_lem :
    {S E : Type 0} (p : Platform) (cfg : Config) (seed_id : Text) (budget : ℕ)
    (load : ℕ → ℕ → Action S E (List CachedMessage)) (s : S) (result : List CachedMessage)
    → (bounded_thread_context p cfg seed_id budget load s).0 ≡ ok result
    → (snippet_bytes result ≤ budget_or_default budget)
      × All (λ m. (cached_message_allowed p cfg m ≡ true) × (same m.id seed_id ≡ false)) result
unfolding bounded_thread_context
bounded_thread_context_lem p cfg seed_id budget load s result h =
    (context_loop-Yields (cached_message_allowed p cfg) seed_id (budget_or_default budget) load
        max_read_window 0 0 [] (record { counted = refl; bounded = omega arith; shown = tt })).at
      s result h
