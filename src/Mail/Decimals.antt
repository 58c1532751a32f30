-- ===== src/Mail/Decimals.antt =====
-- internal/mail/types.go and internal/imapadapter/adapter.go: the decimals that the program writes, and
-- reads back.
use ksuite_mail.Common.{
  ℕ, zero, suc, ◌+◌, ◌/◌, ◌%◌, ◌<◌, ◌≡◌, refl, Bool, false, List, [], ◌∷◌, ◌++◌, Text, any, arith,
}
use ksuite_mail.Mail.{decimal, decimal_digits, drop_leading_zeros}

any-append {ℓ} :
    {A : Type ℓ} (f : A → Bool) (s t : List A)
    → any f s ≡ false
    → any f t ≡ false
    → any f (s ++ t) ≡ false
any-append f [] t hs ht = ht
any-append f (r ∷ rs) t hs ht = ground (arith, any-append f rs t)

-- A test that no digit passes, no rune of a decimal passes.
module _ (f : ℕ → Bool) (no_digit : (j : ℕ) → j < 10 → f (b'0' + j) ≡ false) where
  any-decimal_digits : (n k : ℕ) → any f (decimal_digits n k) ≡ false
  unfolding decimal_digits
  any-decimal_digits zero k = refl
  any-decimal_digits (suc n) k =
      any-append f (decimal_digits n (k / 10)) _ (any-decimal_digits n (k / 10))
        (ground (arith, no_digit (k % 10)))

  any-drop_leading_zeros : (t : Text) → any f t ≡ false → any f (drop_leading_zeros t) ≡ false
  unfolding drop_leading_zeros
  any-drop_leading_zeros [] h = ground (arith, no_digit 0)
  any-drop_leading_zeros (d ∷ ds) h = ground (arith, any-drop_leading_zeros ds)

  pub any-decimal : (n : ℕ) → any f (decimal n) ≡ false
  unfolding decimal
  any-decimal n = any-drop_leading_zeros (decimal_digits 20 n) (any-decimal_digits 20 n)
