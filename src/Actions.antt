-- ===== src/Actions.antt =====
-- Go methods that change a shared object and may return an error. What was written before an error
-- stays written, so the state comes back beside the error too.
pub mod Keeps
pub mod Triples
pub mod Leaves
use ksuite_mail.Common.{Bool, true, false, List, [], ◌∷◌, Result, ok, err}

abbrev pub Action {ℓ} : Type ℓ → Type ℓ → Type ℓ → Type ℓ
Action S E A = S → Result E A × S

module _ {ℓ} {S E A : Type ℓ} where
  abbrev pub pure : A → Action S E A
  pure a s = (ok a, s)

  abbrev pub raise : E → Action S E A
  raise e s = (err e, s)

  abbrev pub gets : (S → A) → Action S E A
  gets f s = (ok (f s), s)

  abbrev pub lift : Result E A → Action S E A
  lift r s = (r, s)

module _ {ℓ} {S E A B : Type ℓ} where
  abbrev pub continue : Result E A → (A → Action S E B) → Action S E B
  continue (ok a) f s = f a s
  continue (err e) f s = (err e, s)

  infixl 5 ◌>>=◌ ◌>>◌
  unfoldable pub ◌>>=◌ : Action S E A → (A → Action S E B) → Action S E B
  ◌>>=◌ m f s = let (r, s') = m s in continue r f s'

  unfoldable pub ◌>>◌ : Action S E A → Action S E B → Action S E B
  unfolding ◌>>=◌
  m >> k = m >>= λ _. k

-- The error of an action, renamed by its caller.
abbrev pub rename_error {ℓ} : {E F A : Type ℓ} → (E → F) → Result E A → Result F A
rename_error f (ok a) = ok a
rename_error f (err e) = err (f e)

unfoldable pub with_error {ℓ} : {S E F A : Type ℓ} → (E → F) → Action S E A → Action S F A
with_error f m s = let (r, s') = m s in (rename_error f r, s')

-- `for _, x := range xs { if err := f(x); err != nil { return err } }`
unfoldable pub for_each {ℓ} :
    {S E A : Type ℓ} {U : Type ℓ} → U → (A → Action S E U) → List A → Action S E U
unfolding ◌>>◌
for_each u f [] = pure u
for_each u f (x ∷ xs) = f x >> for_each u f xs
