-- ===== src/Daemon/Pages.antt =====
-- internal/daemon/daemon.go: what the batched loops return, whatever the batch size.
use mathlib.Core.List.{append_assoc, append-nil, map-append}
use native.Mathlib.Nat.{sub-zero}
use ksuite_mail.Common.{
  ℕ, zero, suc, ◌+◌, ◌-◌, ◌≤◌, ◌<◌, ◌≡◌, refl, sym, ap, ◌∙◌, Bool, false, List, [], ◌∷◌, ◌++◌, map,
  inl, inr, arith, ok, ltb, leb, Bool-cases, ltb→le, leb→le, retain, take, drop, min, max, length,
  length-append, length-take, length-drop, take-append, drop-append, drop-drop, take-split,
  take-short,
}
use ksuite_mail.Actions.{Action, ◌>>=◌}
use ksuite_mail.Mail.{Config, CachedMessage}
use ksuite_mail.Strings.{Platform}
use ksuite_mail.Daemon.Access.{
  default_limit, max_read_window, cached_message_allowed, to_message_summary,
}
use ksuite_mail.Daemon.Paging.{scan_page, page_loop, limit_or_default, visible_message_page}

-- At the state, the loader reads slices of one list, as a query with a positive LIMIT and an OFFSET does
-- on tables that do not change.
abbrev pub LoadsSlices :
    {S E : Type 0} → (ℕ → ℕ → Action S E (List CachedMessage)) → List CachedMessage → S → Type 0
LoadsSlices load rows s = (n o : ℕ) → 0 < n → load n o s ≡ (ok (take n (drop o rows)), s)

retain-append :
    {A : Type 0} (p : A → Bool) (xs ys : List A) → retain p (xs ++ ys) ≡ retain p xs ++ retain p ys
retain-append p [] ys = refl
retain-append p (x ∷ xs) ys = ground (arith, retain-append p xs ys)

module _ {B : Type 0} (limit offset : ℕ) where
  -- What is returned after `skipped` and `results`, when `vs` are the visible messages to come.
  unfoldable pub finish : ℕ → List B → List B → List B
  finish skipped results vs = results ++ take (limit - length results) (drop (offset - skipped) vs)

  finish-full :
      (skipped : ℕ) (results vs : List B)
      → limit ≤ length results
      → finish skipped results vs ≡ results
  unfolding finish
  finish-full skipped results vs h =
      let e : limit - length results ≡ 0 = omega arith in rw (e, append-nil)

  finish-nil : (skipped : ℕ) (results : List B) → finish skipped results [] ≡ results
  unfolding finish
  finish-nil skipped results =
      rw (drop-nil (offset - skipped), take-nil (limit - length results), append-nil)
    where
      drop-nil : (n : ℕ) → drop {A = B} n [] ≡ []
      drop-nil zero = refl
      drop-nil (suc n) = refl

      take-nil : (n : ℕ) → take {A = B} n [] ≡ []
      take-nil zero = refl
      take-nil (suc n) = refl

  finish-append :
      (skipped : ℕ) (results v w : List B)
      → finish skipped results (v ++ w)
        ≡ finish (min offset (skipped + length v)) (finish skipped results v) w
  unfolding finish
  finish-append skipped results v w =
      let d = offset - skipped in
      let k = limit - length results in
      let first : List B = take k (drop d v) in
      let ek : k - length (drop d v) ≡ limit - length (results ++ first) =
        omega (arith, length-append results first, length-take k (drop d v), length-drop d v) in
      let ed : d - length v ≡ offset - min offset (skipped + length v) = omega arith in
      rw (drop-append d v w, take-append k (drop d v) (drop (d - length v) w), ek, ed)
        (sym (append_assoc results first _))

  finish-skip :
      (skipped : ℕ) (results vs : List B) (x : B)
      → skipped < offset
      → finish skipped results (x ∷ vs) ≡ finish (skipped + 1) results vs
  unfolding finish
  finish-skip skipped results vs x h =
      let e : offset - skipped ≡ suc (offset - (skipped + 1)) = omega arith in rw e

  finish-take :
      (skipped : ℕ) (results vs : List B) (x : B)
      → offset ≤ skipped
      → length results < limit
      → finish skipped results (x ∷ vs) ≡ finish skipped (results ++ x ∷ []) vs
  unfolding finish
  finish-take skipped results vs x h l =
      let d : offset - skipped ≡ 0 = omega arith in
      let e : limit - length results ≡ suc (limit - length (results ++ x ∷ [])) =
        omega (arith, length-append results (x ∷ [])) in
      rw (d, e) (sym (append_assoc results (x ∷ []) _))

module _ {B : Type 0} (allowed : CachedMessage → Bool) (out : CachedMessage → B)
    (limit offset : ℕ) where
  -- What the request may see of a batch, as it is shown.
  unfoldable pub shown : List CachedMessage → List B
  shown msgs = map out (retain allowed msgs)

  shown-append : (xs ys : List CachedMessage) → shown (xs ++ ys) ≡ shown xs ++ shown ys
  unfolding shown
  shown-append xs ys = rw (retain-append allowed xs ys, map-append)

  -- One pass over a batch.
  scan_page_lem :
      (skipped : ℕ) (results : List B) (msgs : List CachedMessage)
      → skipped ≤ offset
      → length results < limit
      → let p = scan_page allowed out limit offset skipped results msgs in
        (p.results ≡ finish limit offset skipped results (shown msgs))
        × (p.full ≡ leb limit (length p.results))
        × (p.full ≡ false → p.skipped ≡ min offset (skipped + length (shown msgs)))
  unfolding scan_page shown
  scan_page_lem skipped results [] s l =
      (sym (finish-nil limit offset skipped results), ground arith, λ _. omega arith)
  scan_page_lem skipped results (msg ∷ msgs) s l = elim (Bool-cases (allowed msg)) [
    | inr hidden ↦ rw hidden (scan_page_lem skipped results msgs s l)
    | inl seen ↦ elim (Bool-cases (ltb skipped offset)) [
      | inl before ↦
          let (r, f, k) = scan_page_lem (skipped + 1) results msgs (ground arith) l in
          rw (seen, before)
            (
              r ∙ sym (finish-skip limit offset skipped results _ (out msg) (ground arith)),
              f,
              λ e. omega (arith, k e),
            )
      | inr reached ↦
          let taken : List B = results ++ out msg ∷ [] in
          let step =
            finish-take limit offset skipped results (shown msgs) (out msg) (ground arith) l in
          elim (Bool-cases (leb limit (length taken))) [
            | inl stop ↦
                rw (seen, reached, stop)
                  (
                    sym (step ∙ finish-full limit offset skipped taken (shown msgs) (ground arith)),
                    sym stop,
                    λ e. cc,
                  )
            | inr more ↦
                let (r, f, k) = scan_page_lem skipped taken msgs s (ground arith) in
                rw (seen, reached, more)
                  (r ∙ sym step, f, λ e. omega (arith, k e, ltb→le skipped offset reached))
          ]
    ]
  ]

  module _ {S E : Type 0} (load : ℕ → ℕ → Action S E (List CachedMessage))
      (rows : List CachedMessage) (s : S) (slices : LoadsSlices load rows s) (batch_size : ℕ)
      (nonempty : 0 < batch_size) where
    -- The messages of the window that the loop has not read yet.
    unfoldable pub ahead : ℕ → List CachedMessage
    ahead raw = take (max_read_window - raw) (drop raw rows)

    -- A batch, and what is left behind it.
    ahead-split :
        (raw : ℕ)
        → raw < max_read_window
        → ahead raw
          ≡ take (min batch_size (max_read_window - raw)) (drop raw rows)
            ++ ahead (raw + min batch_size (max_read_window - raw))
    unfolding ahead
    ahead-split raw h =
        let n = min batch_size (max_read_window - raw) in
        let e : max_read_window - raw ≡ n + (max_read_window - (raw + n)) = omega arith in
        ap (λ k. take k (drop raw rows)) e
        ∙ take-split n (max_read_window - (raw + n)) (drop raw rows)
        ∙ ap (λ ys. take n (drop raw rows) ++ take (max_read_window - (raw + n)) ys)
            (drop-drop raw n rows)

    ahead_end : (raw : ℕ) → max_read_window ≤ raw → ahead raw ≡ []
    unfolding ahead
    ahead_end raw h = let e : max_read_window - raw ≡ 0 = omega arith in rw e

    batch : ℕ → List CachedMessage
    batch raw = take (min batch_size (max_read_window - raw)) (drop raw rows)

    -- A batch that is shorter than asked for is the last.
    ahead_short :
        (raw : ℕ)
        → length (batch raw) < min batch_size (max_read_window - raw)
        → ahead raw ≡ batch raw
    unfolding ahead batch
    ahead_short raw h =
        take-short (min batch_size (max_read_window - raw)) (max_read_window - raw) (drop raw rows)
          h (omega arith)

    joined :
        (raw skipped : ℕ) (results : List B)
        → raw < max_read_window
        → finish limit offset skipped results (shown (ahead raw))
          ≡ finish limit offset
              (min offset (skipped + length (shown (batch raw))))
              (finish limit offset skipped results (shown (batch raw)))
              (shown (ahead (raw + min batch_size (max_read_window - raw))))
    unfolding batch
    joined raw skipped results h =
        rw
          (
            ahead-split raw h,
            shown-append (batch raw) (ahead (raw + min batch_size (max_read_window - raw))),
          )
          (finish-append limit offset skipped results (shown (batch raw)) _)

    pub page_loop_lem :
        (rounds raw skipped : ℕ) (results : List B)
        → max_read_window ≤ raw + rounds
        → skipped ≤ offset
        → length results < limit
        → page_loop allowed out limit offset load batch_size rounds raw skipped results s
          ≡ (ok (finish limit offset skipped results (shown (ahead raw))), s)
    unfolding page_loop ◌>>=◌ batch shown
    page_loop_lem zero raw skipped results h k l =
        rw (ahead_end raw (omega arith), finish-nil limit offset skipped results)
    page_loop_lem (suc rounds) raw skipped results h k l =
        elim (Bool-cases (ltb raw max_read_window)) [
          | inr over ↦
              rw (over, ahead_end raw (ground arith), finish-nil limit offset skipped results)
          | inl inside ↦
              let lt : raw < max_read_window = ground arith in
              let p = scan_page allowed out limit offset skipped results (batch raw) in
              let (r, f, sk) = scan_page_lem skipped results (batch raw) k l in
              rw (inside, slices (min batch_size (max_read_window - raw)) raw (omega arith))
                (elim (Bool-cases p.full) [
                  | inl full ↦
                      rw (full, joined raw skipped results lt, ← r)
                        (rw (finish-full limit offset _ p.results _ (leb→le _ _ (sym f ∙ full))))
                  | inr going ↦
                      elim (Bool-cases
                        (ltb (length (batch raw)) (min batch_size (max_read_window - raw)))) [
                          | inl short ↦ rw (going, short, ahead_short raw (ground arith), r)
                          | inr whole ↦
                              let n = min batch_size (max_read_window - raw) in
                              let len : length (batch raw) ≡ n =
                                omega (arith, ltb→le _ _ whole, length-take n (drop raw rows)) in
                              rw (going, whole, joined raw skipped results lt, len, ← r, ← sk going)
                                (page_loop_lem rounds (raw + n) p.skipped p.results (omega arith)
                                  (omega (arith, sk going)) (ground arith))
                        ]
                ])
        ]

pub limit_pos : (n : ℕ) → 0 < limit_or_default n
limit_pos n = ground arith

-- visibleMessagePage over a cache that reads as `rows`: of the first maxReadWindow rows, those that
-- the configuration allows, without the first `offset` of them, and then at most `limit`, or
-- defaultLimit where `limit` is 0; the size of the batches does not show.
pub visible_message_page_lem :
    {S E : Type 0} (p : Platform) (cfg : Config) (load : ℕ → ℕ → Action S E (List CachedMessage))
    (rows : List CachedMessage) (limit offset : ℕ) (s : S)
    → LoadsSlices load rows s
    → visible_message_page p cfg load limit offset s ≡ (
      ok (
          take (limit_or_default limit) (
            drop offset (
              map to_message_summary
                (retain (cached_message_allowed p cfg) (take max_read_window rows))))),
      s,
    )
unfolding visible_message_page finish shown ahead
visible_message_page_lem p cfg load rows limit offset s slices =
    page_loop_lem (cached_message_allowed p cfg) to_message_summary (limit_or_default limit) offset
      load rows s slices (max default_limit (limit_or_default limit + offset)) (omega arith)
      max_read_window 0 0 [] (omega arith) (omega arith) (limit_pos limit)
    ∙ rw (sub-zero offset, sub-zero (limit_or_default limit))
