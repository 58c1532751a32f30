-- ===== src/Refresh/Truncated.antt =====
-- internal/refresh/refresh.go: where truncateTextBytes cuts.
use ksuite_mail.Common.{
  ℕ, ◌+◌, ◌≤◌, ◌<◌, ◌≡◌, refl, ◌∙◌, false, inl, inr, Bool-cases, [], ◌∷◌, ◌++◌, arith, ltb, leb,
  ◌==◌, leb→le, ltb→le, ltb→lt, ==_iff, subst, sym, Text,
}
use mathlib.Core.List.{append_assoc, append-nil}
use ksuite_mail.Strings.{rune_len, byte_len}
use ksuite_mail.Refresh.Content.{truncate_loop, truncate_text_bytes}

-- The next rune does not fit.
abbrev IsTight : ℕ → Text → Text → Type 0
IsTight max_bytes cut [] = Unit
IsTight max_bytes cut (r ∷ rest) = max_bytes < byte_len cut + rune_len r

-- `cut` is the longest text of at most `max_bytes` bytes that begins `s`.
pub record IsCut (max_bytes : ℕ) (s cut : Text) : Type 0 where
  pub rest : Text
  pub begins : cut ++ rest ≡ s
  pub fits : byte_len cut ≤ max_bytes
  pub tight : IsTight max_bytes cut rest

byte_len-append : (a b : Text) → byte_len (a ++ b) ≡ byte_len a + byte_len b
unfolding byte_len
byte_len-append [] b = omega arith
byte_len-append (x ∷ xs) b = omega (arith, byte_len-append xs b)

byte_len-one : (r : ℕ) → byte_len (r ∷ []) ≡ rune_len r
unfolding byte_len
byte_len-one r = omega arith

rune_len_pos : (r : ℕ) → 0 < rune_len r
rune_len_pos r = ground arith

-- The loop, behind its first round: `c` is the rune that `cut` leaves out of the runes read.
truncate_loop-IsCut :
    (max_bytes i : ℕ) (s cut : Text) (c : ℕ) (rs : Text)
    → i ≡ byte_len cut + rune_len c
    → cut ++ c ∷ rs ≡ s
    → byte_len cut ≤ max_bytes
    → max_bytes < byte_len s
    → IsCut max_bytes s (truncate_loop max_bytes i cut (cut ++ c ∷ []) rs)
unfolding truncate_loop
truncate_loop-IsCut max_bytes i s cut c [] e b f l = record {
  rest = c ∷ [];
  begins = b;
  fits = f;
  tight = omega (
    arith,
    byte_len-append cut (c ∷ []),
    byte_len-one c,
    subst (λ x. max_bytes < byte_len x) (sym b) l,
  );
}
truncate_loop-IsCut max_bytes i s cut c (r ∷ rs) e b f l = elim (Bool-cases (ltb max_bytes i)) [
  | inl past ↦ rw past (record {
    rest = c ∷ r ∷ rs;
    begins = b;
    fits = f;
    tight = omega (arith, e, ltb→lt max_bytes i past);
  })
  | inr before ↦ elim (Bool-cases (i == max_bytes)) [
    | inl exact ↦
        rw (before, exact)
          (record {
            rest = r ∷ rs;
            begins = append_assoc cut (c ∷ []) (r ∷ rs) ∙ b;
            fits = omega (arith, (==_iff i max_bytes).0 exact, e, seen_bytes);
            tight = omega (arith, (==_iff i max_bytes).0 exact, e, seen_bytes, rune_len_pos r);
          })
    | inr less ↦
        rw (before, less)
          (truncate_loop-IsCut max_bytes (i + rune_len r) s (cut ++ c ∷ []) r rs
            (omega (arith, e, seen_bytes)) (append_assoc cut (c ∷ []) (r ∷ rs) ∙ b)
            (omega (arith, e, seen_bytes, ltb→le max_bytes i before)) l)
  ]
]
  where
    seen_bytes : byte_len (cut ++ c ∷ []) ≡ byte_len cut + rune_len c
    seen_bytes = omega (arith, byte_len-append cut (c ∷ []), byte_len-one c)

nothing_fits : (s : Text) → IsTight 0 [] s
unfolding byte_len
nothing_fits [] = tt
nothing_fits (r ∷ rs) = omega (arith, rune_len_pos r)

truncate_loop_start :
    (max_bytes : ℕ) (s : Text)
    → (max_bytes == 0) ≡ false
    → leb (byte_len s) max_bytes ≡ false
    → IsCut max_bytes s (truncate_loop max_bytes 0 [] [] s)
unfolding truncate_loop byte_len
truncate_loop_start max_bytes [] z l = absurd (ground arith)
truncate_loop_start max_bytes (r ∷ rs) z l =
    rw (not_past, not_exact)
      (truncate_loop-IsCut max_bytes (0 + rune_len r) (r ∷ rs) [] r rs (omega arith) refl
        (omega arith) (ground arith))
  where
    not_past : ltb max_bytes 0 ≡ false
    not_past = ground arith

    not_exact : (0 == max_bytes) ≡ false
    not_exact = ground arith

-- What truncateTextBytes returns begins the text, has at most the bytes allowed, and cannot take in the
-- next rune.
pub truncate_text_bytes-IsCut :
    (s : Text) (max_bytes : ℕ) → IsCut max_bytes s (truncate_text_bytes s max_bytes)
unfolding truncate_text_bytes byte_len
truncate_text_bytes-IsCut s max_bytes = elim (Bool-cases (max_bytes == 0)) [
  | inl zero_bytes ↦ rw zero_bytes (record {
    rest = s;
    begins = refl;
    fits = omega arith;
    tight = subst (λ m. IsTight m [] s) (sym ((==_iff max_bytes 0).0 zero_bytes)) (nothing_fits s);
  })
  | inr some_bytes ↦ elim (Bool-cases (leb (byte_len s) max_bytes)) [
    | inl whole ↦
        rw (some_bytes, whole)
          (record {
            rest = [];
            begins = append-nil s;
            fits = leb→le (byte_len s) max_bytes whole;
            tight = tt;
          })
    | inr long ↦ rw (some_bytes, long) (truncate_loop_start max_bytes s some_bytes long)
  ]
]
