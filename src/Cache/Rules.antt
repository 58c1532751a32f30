-- ===== src/Cache/Rules.antt =====
-- internal/cache/cache.go: what the statements and transactions of a session do to the tables.
use ksuite_mail.Common.{◌≡◌, refl, Result, ok, err, arith, Bool-cases, inl, inr}
use ksuite_mail.Actions.{continue, ◌>>=◌, ◌>>◌}
use ksuite_mail.Actions.Keeps.{Keeps}
use ksuite_mail.Cache.Tables.{Tables, DbError}
use ksuite_mail.Cache.Session.{Repository, Db, draw, store, exec, query, close, in_tx}

-- `P` holds of the tables.
abbrev pub OfTables : (Tables → Type 0) → Repository → Type 0
OfTables P r = P r.tables

module _ {A B : Type 0} where
  -- Inversion of a successful bind.
  pub bind-ok :
      (m : Db A) (f : A → Db B) (r : Repository) (b : B)
      → ((m >>= f) r).0 ≡ ok b
      → (a : A) × ((m r).0 ≡ ok a) × ((f a (m r).1).0 ≡ ok b) × ((f a (m r).1).1 ≡ ((m >>= f) r).1)
  unfolding ◌>>=◌
  bind-ok m f r b h = go (m r) h
    where
      go :
          (p : Result DbError A × Repository)
          → (continue p.0 f p.1).0 ≡ ok b
          → (a : A) × (p.0 ≡ ok a) × ((f a p.1).0 ≡ ok b) × ((f a p.1).1 ≡ (continue p.0 f p.1).1)
      go (ok a, r') h = (a, refl, h, refl)
      go (err e, r') h = cc

  pub then-ok :
      (m : Db A) (k : Db B) (r : Repository) (b : B)
      → ((m >> k) r).0 ≡ ok b
      → (a : A) × ((m r).0 ≡ ok a) × ((k (m r).1).0 ≡ ok b) × ((k (m r).1).1 ≡ ((m >> k) r).1)
  unfolding ◌>>◌
  then-ok m k r b h = bind-ok m (λ _. k) r b h

-- A statement that succeeded has made its change.
pub exec-ok :
    (statement : Tables → Result DbError Tables) (r : Repository) (u : Unit {0})
    → (exec statement r).0 ≡ ok u
    → statement r.tables ≡ ok (exec statement r).1.tables
unfolding exec
exec-ok statement r u h = elim (Bool-cases (draw r.faults).0) [
  | inl bad ↦ ground arith
  | inr good ↦ ground arith
]

-- So has a read, and it has changed nothing.
pub query-ok :
    {A : Type 0} (read : Tables → A) (r : Repository) (a : A)
    → (query read r).0 ≡ ok a
    → (a ≡ read r.tables) × ((query read r).1.tables ≡ r.tables)
unfolding query
query-ok read r a h = elim (Bool-cases (draw r.faults).0) [
  | inl bad ↦ ground arith
  | inr good ↦ ground arith
]

module _ {A : Type 0} where
  pub query-Keeps : (P : Tables → Type 0) (read : Tables → A) → Keeps (OfTables P) (query read)
  unfolding query
  query-Keeps P read = record {
    at = λ r h. elim (Bool-cases (draw r.faults).0) [ inl bad ↦ rw bad h | inr good ↦ rw good h ];
  }

pub exec-Keeps :
    (P : Tables → Type 0) (statement : Tables → Result DbError Tables)
    → ((t t' : Tables) → P t → statement t ≡ ok t' → P t')
    → Keeps (OfTables P) (exec statement)
unfolding exec
exec-Keeps P statement step = record {
  at = λ r h. elim (Bool-cases (draw r.faults).0) [
    | inl bad ↦ rw bad h
    | inr good ↦ rw good (go r h (statement r.tables) refl)
  ];
}
  where
    go :
        (r : Repository)
        → P r.tables
        → (res : Result DbError Tables) → statement r.tables ≡ res
        → P (store res (record r { faults = (draw r.faults).1 })).1.tables
    go r h (ok t') e = step r.tables t' h e
    go r h (err x) e = h

module _ {A : Type 0} (body : Db A) where
  -- A transaction that fails leaves the tables as they were.
  pub in_tx-err :
      (r : Repository) (e : DbError) → (in_tx body r).0 ≡ err e → (in_tx body r).1.tables ≡ r.tables
  unfolding in_tx
  in_tx-err r e h = elim (Bool-cases (draw r.faults).0) [
    | inl bad ↦ rw bad
    | inr good ↦ rw good (go (body (record r { faults = (draw r.faults).1 })) (rw good at h))
  ]
    where
      go :
          (p : Result DbError A × Repository)
          → (close r.tables p.0 p.1).0 ≡ err e
          → (close r.tables p.0 p.1).1.tables ≡ r.tables
      go (err x, r') h = refl
      go (ok a, r') h = ground arith

  -- One that succeeds leaves what its body left.
  pub in_tx-ok :
      (r : Repository) (a : A)
      → (in_tx body r).0 ≡ ok a
      → (r' : Repository) × (r'.tables ≡ r.tables)
        × (r'.now ≡ r.now)
        × ((body r').0 ≡ ok a)
        × ((in_tx body r).1.tables ≡ (body r').1.tables)
  unfolding in_tx
  in_tx-ok r a h = elim (Bool-cases (draw r.faults).0) [
    | inl bad ↦ absurd (ground arith)
    | inr good ↦
        let r' : Repository = record r { faults = (draw r.faults).1 } in
        let p = go (body r') (rw good at h) in (r', refl, refl, p.0, rw good p.1)
  ]
    where
      go :
          (p : Result DbError A × Repository)
          → (close r.tables p.0 p.1).0 ≡ ok a
          → (p.0 ≡ ok a) × ((close r.tables p.0 p.1).1.tables ≡ p.1.tables)
      go (err x, r') h = cc
      go (ok b, r') h = ground arith

  pub in_tx-Keeps :
      (P : Tables → Type 0)
      → ((r : Repository) (a : A) → P r.tables → (body r).0 ≡ ok a → P (body r).1.tables)
      → Keeps (OfTables P) (in_tx body)
  in_tx-Keeps P step = record { at = λ r h. go r h (in_tx body r).0 refl }
    where
      go :
          (r : Repository)
          → P r.tables
          → (res : Result DbError A) → (in_tx body r).0 ≡ res
          → P (in_tx body r).1.tables
      go r h (err e) q = rw (in_tx-err r e q) h
      go r h (ok a) q = let (r', t, n, o, l) = in_tx-ok r a q in rw l (step r' a (rw t h) o)
