-- ===== src/Actions/Triples.antt =====
-- Actions with a precondition, a postcondition of their result, and one of their error.
use ksuite_mail.Common.{◌≡◌, refl, Bool, true, false, Result, ok, err, if◌then◌else◌}
use ksuite_mail.Actions.{Action, pure, raise, lift, continue, ◌>>=◌, ◌>>◌}

module _ {S E A : Type 0} where
  abbrev pub Ends : (A → S → Type 0) → (S → Type 0) → Result E A × S → Type 0
  Ends Q R (ok a, s) = Q a s
  Ends Q R (err e, s) = R s

  -- From a state with `P` the action ends in one with `Q` of its result, or fails in one with `R`.
  pub record Triple (P : S → Type 0) (m : Action S E A) (Q : A → S → Type 0) (R : S → Type 0)
      : Type 0 where
    pub at : (s : S) → P s → Ends Q R (m s)

  Ends-weaken :
      (Q T : A → S → Type 0) (R U : S → Type 0) (r : Result E A × S)
      → ((a : A) (s : S) → Q a s → T a s)
      → ((s : S) → R s → U s)
      → Ends Q R r
      → Ends T U r
  Ends-weaken Q T R U (ok a, s) q u h = q a s h
  Ends-weaken Q T R U (err e, s) q u h = u s h

  -- The precondition is strengthened, and the postconditions are weakened.
  pub Triple-weaken :
      (P P' : S → Type 0) (Q T : A → S → Type 0) (R U : S → Type 0) (m : Action S E A)
      → ((s : S) → P' s → P s)
      → ((a : A) (s : S) → Q a s → T a s)
      → ((s : S) → R s → U s)
      → Triple P m Q R
      → Triple P' m T U
  Triple-weaken P P' Q T R U m p q u t = record {
    at = λ s h. Ends-weaken Q T R U (m s) q u (t.at s (p s h));
  }

  pub Triple-pure :
      (P : S → Type 0) (Q : A → S → Type 0) (R : S → Type 0) (a : A)
      → ((s : S) → P s → Q a s)
      → Triple P (pure a) Q R
  Triple-pure P Q R a h = record { at = h }

  pub Triple-raise :
      (P : S → Type 0) (Q : A → S → Type 0) (R : S → Type 0) (e : E)
      → ((s : S) → P s → R s)
      → Triple P (raise e) Q R
  Triple-raise P Q R e h = record { at = h }

  Ends-lift :
      (P : S → Type 0) (R : S → Type 0) (r : Result E A) (s : S)
      → ((s' : S) → P s' → R s')
      → P s
      → Ends (λ a s'. P s' × (r ≡ ok a)) R (r, s)
  Ends-lift P R (ok a) s w h = (h, refl)
  Ends-lift P R (err e) s w h = w s h

  pub Triple-lift :
      (P : S → Type 0) (R : S → Type 0) (r : Result E A)
      → ((s : S) → P s → R s)
      → Triple P (lift r) (λ a s. P s × (r ≡ ok a)) R
  Triple-lift P R r w = record { at = λ s h. Ends-lift P R r s w h }

  pub Triple-if :
      (P : S → Type 0) (Q : A → S → Type 0) (R : S → Type 0) (b : Bool) (m n : Action S E A)
      → Triple (λ s. P s × (b ≡ true)) m Q R
      → Triple (λ s. P s × (b ≡ false)) n Q R
      → Triple P (if b then m else n) Q R
  Triple-if P Q R true m n tm tn = record { at = λ s h. tm.at s (h, refl) }
  Triple-if P Q R false m n tm tn = record { at = λ s h. tn.at s (h, refl) }

module _ {S E A B : Type 0} where
  Ends-bind :
      (Q : A → S → Type 0) (T : B → S → Type 0) (R : S → Type 0) (f : A → Action S E B)
      (r : Result E A × S)
      → ((a : A) → Triple (Q a) (f a) T R)
      → Ends Q R r
      → Ends T R (continue r.0 f r.1)
  Ends-bind Q T R f (ok a, s) tf h = (tf a).at s h
  Ends-bind Q T R f (err e, s) tf h = h

  pub Triple-bind :
      (P : S → Type 0) (Q : A → S → Type 0) (T : B → S → Type 0) (R : S → Type 0) (m : Action S E A)
      (f : A → Action S E B)
      → Triple P m Q R
      → ((a : A) → Triple (Q a) (f a) T R)
      → Triple P (m >>= f) T R
  unfolding ◌>>=◌
  Triple-bind P Q T R m f tm tf = record { at = λ s h. Ends-bind Q T R f (m s) tf (tm.at s h) }

  pub Triple-then :
      (P Q : S → Type 0) (T : B → S → Type 0) (R : S → Type 0) (m : Action S E A) (k : Action S E B)
      → Triple P m (λ _ s. Q s) R
      → Triple Q k T R
      → Triple P (m >> k) T R
  unfolding ◌>>◌
  Triple-then P Q T R m k tm tk = Triple-bind P (λ _ s. Q s) T R m (λ _. k) tm (λ _. tk)
