-- ===== src/Actions/Keeps.antt =====
-- Invariants of actions, by one rule for each way to build an action. An action keeps `P` whether
-- it returns or fails.
use ksuite_mail.Common.{
  ◌≡◌, refl, ap, subst, Bool, true, false, List, [], ◌∷◌, Result, ok, err, ok_injective,
  if◌then◌else◌,
}
use ksuite_mail.Actions.{
  Action, pure, raise, gets, lift, rename_error, continue, ◌>>=◌, ◌>>◌, with_error, for_each,
}

pub record Keeps {ℓ κ} {S E A : Type ℓ} (P : S → Type κ) (m : Action S E A) : Type (ℓ ⊔ κ) where
  pub at : (s : S) → P s → P (m s).1

module _ {ℓ κ} {S E A : Type ℓ} {P : S → Type κ} where
  pub Keeps-pure : (a : A) → Keeps P (pure {E = E} a)
  Keeps-pure a = record { at = λ s h. h }

  pub Keeps-raise : (e : E) → Keeps P (raise {A = A} e)
  Keeps-raise e = record { at = λ s h. h }

  pub Keeps-gets : (f : S → A) → Keeps P (gets {E = E} f)
  Keeps-gets f = record { at = λ s h. h }

  pub Keeps-lift : (r : Result E A) → Keeps P (lift r)
  Keeps-lift r = record { at = λ s h. h }

  pub Keeps-if :
      (b : Bool) (m n : Action S E A) → Keeps P m → Keeps P n → Keeps P (if b then m else n)
  Keeps-if true m n km kn = km
  Keeps-if false m n km kn = kn

module _ {ℓ κ} {S E A B : Type ℓ} {P : S → Type κ} where
  Keeps-continue :
      (r : Result E A) (f : A → Action S E B) (s : S)
      → P s
      → ((a : A) → Keeps P (f a))
      → P (continue r f s).1
  Keeps-continue (ok a) f s h kf = (kf a).at s h
  Keeps-continue (err e) f s h kf = h

  pub Keeps-bind :
      (m : Action S E A) (f : A → Action S E B)
      → Keeps P m
      → ((a : A) → Keeps P (f a))
      → Keeps P (m >>= f)
  unfolding ◌>>=◌
  Keeps-bind m f km kf = record { at = λ s h. Keeps-continue (m s).0 f (m s).1 (km.at s h) kf }

  pub Keeps-then : (m : Action S E A) (k : Action S E B) → Keeps P m → Keeps P k → Keeps P (m >> k)
  unfolding ◌>>◌
  Keeps-then m k km kk = Keeps-bind m (λ _. k) km (λ _. kk)

pub Keeps-with_error {ℓ κ} :
    {S E F A : Type ℓ} {P : S → Type κ} (f : E → F) (m : Action S E A)
    → Keeps P m
    → Keeps P (with_error f m)
unfolding with_error
Keeps-with_error f m km = record { at = km.at }

pub Keeps-for_each {ℓ κ} :
    {S E A U : Type ℓ} {P : S → Type κ} (u : U) (f : A → Action S E U) (xs : List A)
    → ((x : A) → Keeps P (f x))
    → Keeps P (for_each u f xs)
unfolding for_each
Keeps-for_each u f [] kf = Keeps-pure u
Keeps-for_each u f (x ∷ xs) kf =
    Keeps-then (f x) (for_each u f xs) (kf x) (Keeps-for_each u f xs kf)

pub ruleset keeps_rules = (
  Keeps-pure, Keeps-raise, Keeps-gets, Keeps-lift, Keeps-if, Keeps-bind, Keeps-then,
  Keeps-with_error, Keeps-for_each,
)

-- What a successful run returns has the property `Q`.
pub record Yields {ℓ κ} {S E A : Type ℓ} (m : Action S E A) (Q : A → Type κ) : Type (ℓ ⊔ κ) where
  pub at : (s : S) (a : A) → (m s).0 ≡ ok a → Q a

pub Keeps-bind-yields {ℓ κ} :
    {S E A B : Type ℓ} {P : S → Type κ} (Q : A → Type κ) (m : Action S E A) (f : A → Action S E B)
    → Keeps P m
    → Yields m Q
    → ((a : A) → Q a → Keeps P (f a))
    → Keeps P (m >>= f)
unfolding ◌>>=◌
Keeps-bind-yields {S = S} {E} {A} {B} {P} Q m f km ym kf = record {
  at = λ s h. go s (m s).1 (m s).0 (km.at s h) (ym.at s);
}
  where
    go : (s s' : S) (r : Result E A) → P s' → ((a : A) → r ≡ ok a → Q a) → P (continue r f s').1
    go s s' (ok a) h q = (kf a (q a refl)).at s' h
    go s s' (err e) h q = h

module _ {S E A : Type 0} (Q : A → Type 0) where
  pub Yields-pure : (a : A) → Q a → Yields (pure {S = S} {E = E} a) Q
  Yields-pure a q = record { at = λ s b h. subst Q (ok_injective h) q }

  pub Yields-if :
      (b : Bool) (m n : Action S E A) → Yields m Q → Yields n Q → Yields (if b then m else n) Q
  Yields-if true m n ym yn = ym
  Yields-if false m n ym yn = yn

  -- With the outcome of the test at hand.

  pub Yields-bind :
      {B : Type 0} (m : Action S E B) (f : B → Action S E A)
      → ((b : B) → Yields (f b) Q)
      → Yields (m >>= f) Q
  unfolding ◌>>=◌
  Yields-bind {B} m f yf = record { at = λ s a h. go (m s) a h }
    where
      go : (p : Result E B × S) (a : A) → (continue p.0 f p.1).0 ≡ ok a → Q a
      go (ok b, s) a h = (yf b).at s a h
      go (err e, s) a h = cc

module _ {S E A : Type 0} where
  -- A bind whose first step has a property that the second uses.
  pub Yields-bind-yields :
      {B : Type 0} (R : B → Type 0) (Q : A → Type 0) (m : Action S E B) (f : B → Action S E A)
      → Yields m R
      → ((b : B) → R b → Yields (f b) Q)
      → Yields (m >>= f) Q
  unfolding ◌>>=◌
  Yields-bind-yields {B} R Q m f ym yf = record { at = λ s a h. go s (m s).1 (m s).0 a (ym.at s) h }
    where
      go :
          (s s' : S) (r : Result E B) (a : A)
          → ((b : B) → r ≡ ok b → R b)
          → (continue r f s').0 ≡ ok a
          → Q a
      go s s' (ok b) a q h = (yf b (q b refl)).at s' a h
      go s s' (err e) a q h = cc

  pub Yields-lift : (r : Result E A) → Yields (lift {S = S} r) (λ a. r ≡ ok a)
  Yields-lift r = record { at = λ s a h. h }

  pub Yields-raise : (Q : A → Type 0) (e : E) → Yields (raise {S = S} e) Q
  Yields-raise Q e = record { at = λ s a h. absurd (refused e a h) }
    where
      refused : (e : E) (a : A) → ◌≡◌ {A = Result E A} (err e) (ok a) → ⊥
      refused e a h = cc

pub Yields-with_error :
    {S E F A : Type 0} (Q : A → Type 0) (f : E → F) (m : Action S E A)
    → Yields m Q
    → Yields (with_error f m) Q
unfolding with_error
Yields-with_error {E = E} {F} {A} Q f m ym = record { at = λ s a h. ym.at s a (go (m s).0 a h) }
  where
    go : (r : Result E A) (a : A) → rename_error f r ≡ ok a → r ≡ ok a
    go (ok b) a h = ap (λ x. ok x) (ok_injective h)
    go (err e) a h = cc
