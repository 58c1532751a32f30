-- ===== src/Settings/Digits.antt =====
-- strconv's reading of the decimals that the program writes.
use native.Mathlib.Nat.{pow-suc}
use ksuite_mail.Common.{
  ℕ, zero, suc, ◌+◌, ◌-◌, ◌*◌, ◌/◌, ◌%◌, ◌^◌, ◌<◌, ◌≡◌, refl, ◌∙◌, false, some, [], ◌∷◌, ◌++◌, Text,
  arith, ◌==◌, Bool-cases, inl, inr,
}
use ksuite_mail.Strings.{is_empty}
use ksuite_mail.Mail.{decimal, decimal_digits, drop_leading_zeros}
use ksuite_mail.Settings.{digits_from, unsigned}

-- The digits `a`, and then one more.
digits_from_snoc :
    (n : ℕ) (a : Text) (v j : ℕ)
    → digits_from n a ≡ some v
    → j < 10
    → digits_from n (a ++ (b'0' + j) ∷ []) ≡ some (v * 10 + j)
unfolding digits_from
digits_from_snoc n [] v j h l = ground arith
digits_from_snoc n (r ∷ rs) v j h l = ground (arith, digits_from_snoc (n * 10 + (r - b'0')) rs v j)

digits_from-decimal_digits : (m k : ℕ) → k < 10 ^ m → digits_from 0 (decimal_digits m k) ≡ some k
unfolding digits_from decimal_digits
digits_from-decimal_digits zero k h = ground arith
digits_from-decimal_digits (suc m) k h =
    let p = pow-suc 10 m in
    let high = digits_from-decimal_digits m (k / 10) (omega (arith, p)) in
    digits_from_snoc 0 (decimal_digits m (k / 10)) (k / 10) (k % 10) high (omega arith)
    ∙ ground arith

digits_from-drop_leading_zeros : (t : Text) → digits_from 0 (drop_leading_zeros t) ≡ digits_from 0 t
unfolding digits_from drop_leading_zeros
digits_from-drop_leading_zeros [] = refl
digits_from-drop_leading_zeros (d ∷ ds) = elim (Bool-cases (d == b'0')) [
  | inl e ↦ ground (arith, digits_from-drop_leading_zeros ds)
  | inr e ↦ rw e refl
]

drop_leading_zeros_not_empty : (t : Text) → is_empty (drop_leading_zeros t) ≡ false
unfolding drop_leading_zeros
drop_leading_zeros_not_empty [] = refl
drop_leading_zeros_not_empty (d ∷ ds) = ground (arith, drop_leading_zeros_not_empty ds)

pub decimal_not_empty : (k : ℕ) → is_empty (decimal k) ≡ false
unfolding decimal
decimal_not_empty k = drop_leading_zeros_not_empty (decimal_digits 20 k)

-- A number that 20 digits hold is read back from its decimal.
pub unsigned-decimal : (k : ℕ) → k < 10 ^ 20 → unsigned (decimal k) ≡ some k
unfolding unsigned decimal
unsigned-decimal k h =
    rw (drop_leading_zeros_not_empty (decimal_digits 20 k))
      (digits_from-drop_leading_zeros (decimal_digits 20 k) ∙ digits_from-decimal_digits 20 k h)
