-- ===== src/Cache/Stamp.antt =====
-- internal/cache/cache.go: the times that the database holds as text, in the format RFC3339Nano, and
-- compares as text. A time is a number of nanoseconds. The text of a UTC time is a part of fixed
-- width for its second, whose order is that of the seconds, so a number stands for it here; then, if
-- the nanoseconds are not 0, a point and their digits without the zeros at the end; then a Z.
use ksuite_mail.Common.{
  ℕ, zero, suc, ◌+◌, ◌/◌, ◌%◌, Bool, true, false, ◌&&◌, ◌||◌, [], ◌∷◌, ◌++◌, ltb, ◌==◌,
  if◌then◌else◌, Text,
}

abbrev pub second : ℕ
second = 1_000_000_000

-- The n lowest decimal digits of a number, highest first.
unfoldable pub digits : ℕ → ℕ → Text
digits zero k = []
digits (suc n) k = digits n (k / 10) ++ (b'0' + k % 10) ∷ []

-- Drops the zeros at the end.
abbrev pub cons_unless_zero : ℕ → Text → Text
cons_unless_zero d [] = if d == b'0' then [] else d ∷ []
cons_unless_zero d (x ∷ xs) = d ∷ x ∷ xs

unfoldable pub drop_zeros : Text → Text
drop_zeros [] = []
drop_zeros (d ∷ ds) = cons_unless_zero d (drop_zeros ds)

-- What stands behind the seconds.
unfoldable pub fraction : ℕ → Text
unfolding digits drop_zeros
fraction nanos = if nanos == 0 then b'Z' ∷ [] else b'.' ∷ (drop_zeros (digits 9 nanos) ++ b'Z' ∷ [])

-- t.UTC().Format(time.RFC3339Nano)
unfoldable pub stamp : ℕ → Text
unfolding fraction
stamp t = (t / second) ∷ fraction (t % second)

-- The order of SQLite on texts.
unfoldable pub text_lt : Text → Text → Bool
text_lt [] [] = false
text_lt [] (y ∷ ys) = true
text_lt (x ∷ xs) [] = false
text_lt (x ∷ xs) (y ∷ ys) = ltb x y || (x == y && text_lt xs ys)
