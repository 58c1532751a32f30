-- ===== src/Actions/Leaves.antt =====
-- What an action that succeeds leaves: a condition on its result and on the state after it.
use ksuite_mail.Common.{
  ◌≡◌, refl, sym, subst, Bool, true, false, Result, ok, err, ok_injective, if◌then◌else◌,
}
use ksuite_mail.Actions.{Action, continue, rename_error, ◌>>=◌, with_error}
use ksuite_mail.Actions.Keeps.{Yields}
use ksuite_mail.Actions.Triples.{Ends, Triple}

-- No condition on where an action fails.
abbrev pub Anywhere : {S : Type 0} → S → Type 0
Anywhere s = Unit {0}

pub record Leaves {S E A : Type 0} (m : Action S E A) (Q : A → S → Type 0) : Type 0 where
  pub at : (s : S) (a : A) → (m s).0 ≡ ok a → Q a (m s).1

module _ {S E A : Type 0} (Q : A → S → Type 0) where
  pub Leaves-bind :
      {B : Type 0} (m : Action S E B) (f : B → Action S E A)
      → ((b : B) → Leaves (f b) Q)
      → Leaves (m >>= f) Q
  unfolding ◌>>=◌
  Leaves-bind {B} m f lf = record { at = λ s a h. go (m s) a h }
    where
      go : (x : Result E B × S) (a : A) → (continue x.0 f x.1).0 ≡ ok a → Q a (continue x.0 f x.1).1
      go (ok b, s) a h = (lf b).at s a h
      go (err e, s) a h = cc

  -- With a property of the result of the first step.
  pub Leaves-bind-yields :
      {B : Type 0} (R : B → Type 0) (m : Action S E B) (f : B → Action S E A)
      → Yields m R
      → ((b : B) → R b → Leaves (f b) Q)
      → Leaves (m >>= f) Q
  unfolding ◌>>=◌
  Leaves-bind-yields {B} R m f ym lf = record { at = λ s a h. go (m s).1 (m s).0 a (ym.at s) h }
    where
      go :
          (s : S) (r : Result E B) (a : A)
          → ((b : B) → r ≡ ok b → R b)
          → (continue r f s).0 ≡ ok a
          → Q a (continue r f s).1
      go s (ok b) a y h = (lf b (y b refl)).at s a h
      go s (err e) a y h = cc

  pub Leaves-weaken :
      (P : A → S → Type 0) (m : Action S E A)
      → ((a : A) (s : S) → P a s → Q a s)
      → Leaves m P
      → Leaves m Q
  Leaves-weaken P m w l = record { at = λ s a h. w a (m s).1 (l.at s a h) }

-- A triple for every value of a view of the state.
pub Leaves-triples :
    {S E A T : Type 0} (of : S → T) (F : T → A → Type 0) (m : Action S E A)
    → ((t : T) → Triple (λ s. of s ≡ t) m (λ a s. (of s ≡ t) × F t a) Anywhere)
    → Leaves m (λ a s. F (of s) a)
Leaves-triples {S} {E} {A} {T} of F m triples = record {
  at = λ s a h. go (of s) (m s) a h ((triples (of s)).at s refl);
}
  where
    go :
        (t : T) (x : Result E A × S) (a : A)
        → x.0 ≡ ok a
        → Ends (λ b s. (of s ≡ t) × F t b) Anywhere x
        → F (of x.1) a
    go t (ok b, s) a h (e, f) = subst (F (of s)) (ok_injective h) (subst (λ u. F u b) (sym e) f)
    go t (err e, s) a h f = cc

module _ {S E A : Type 0} (P : S → Type 0) (Q : A → S → Type 0) where
  pub Triple-with_error :
      {F : Type 0} (f : E → F) (m : Action S E A)
      → Triple P m Q Anywhere
      → Triple P (with_error f m) Q Anywhere
  unfolding with_error
  Triple-with_error f m t = record { at = λ s h. go (m s) (t.at s h) }
    where
      go : (x : Result E A × S) → Ends Q Anywhere x → Ends Q Anywhere (rename_error f x.0, x.1)
      go (ok a, s) q = q
      go (err e, s) q = tt

  -- An action under a test.
  pub Triple-test :
      (b : Bool) (m n : Action S E A)
      → (b ≡ true → Triple P m Q Anywhere)
      → (b ≡ false → Triple P n Q Anywhere)
      → Triple P (if b then m else n) Q Anywhere
  Triple-test true m n tm tn = tm refl
  Triple-test false m n tm tn = tn refl

  -- A precondition that has a part which is not about the state.
  pub Triple-given :
      {C : Type 0} (m : Action S E A)
      → (C → Triple P m Q Anywhere)
      → Triple (λ s. P s × C) m Q Anywhere
  Triple-given m t = record { at = λ s (h, c). (t c).at s h }
