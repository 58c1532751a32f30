-- ===== src/Cache/Session.antt =====
-- internal/cache/cache.go: the handle of the database, its statements and its transactions. The lock
-- writeMu makes each writing method one step, so methods do not interleave here.
use ksuite_mail.Common.{ℕ, Bool, false, List, [], ◌∷◌, Result, ok, err, if◌then◌else◌}
use ksuite_mail.Actions.{Action}
use ksuite_mail.Cache.Tables.{Tables, DbError, fault}

-- `now` is what r.now() returns. `faults` says which of the next calls of the driver report an
-- error, whatever the reason; past its end, none does.
pub record Repository : Type 0 where
  pub tables : Tables
  pub open tables use *
  pub now : ℕ
  pub faults : List Bool

abbrev pub Db : Type 0 → Type 0
Db A = Action Repository DbError A

abbrev pub draw : List Bool → Bool × List Bool
draw [] = (false, [])
draw (b ∷ bs) = (b, bs)

abbrev pub store : Result DbError Tables → Repository → Result DbError (Unit {0}) × Repository
store (ok t) r = (ok tt, record r { tables = t })
store (err e) r = (err e, r)

-- db.Exec of one statement: all of it or, on an error, nothing.
unfoldable pub exec : (Tables → Result DbError Tables) → Db (Unit {0})
exec statement r =
    let (bad, rest) = draw r.faults in
    if bad
    then (err fault, record r { faults = rest })
    else store (statement r.tables) (record r { faults = rest })

-- db.Query, with all its rows read.
unfoldable pub query : {A : Type 0} → (Tables → A) → Db A
query read r =
    let (bad, rest) = draw r.faults in
    if bad
    then (err fault, record r { faults = rest })
    else (ok (read r.tables), record r { faults = rest })

-- The end of a transaction: an error, of its body or of the commit, rolls the tables back.
abbrev pub close :
    {A : Type 0} → Tables → Result DbError A → Repository → Result DbError A × Repository
close before (err e) r = (err e, record r { tables = before })
close before (ok a) r =
    let (bad, rest) = draw r.faults in
    if bad
    then (err fault, record r { tables = before; faults = rest })
    else (ok a, record r { faults = rest })

-- tx := db.Begin(), the body, and tx.Commit() or the rollback.
unfoldable pub in_tx : {A : Type 0} → Db A → Db A
in_tx body r =
    let (bad, rest) = draw r.faults in
    if bad
    then (err fault, record r { faults = rest })
    else let (res, r') = body (record r { faults = rest }) in close r.tables res r'
