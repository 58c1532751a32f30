-- ===== src/Imap/Ranges.antt =====
-- internal/imapadapter/adapter.go: the UID set of a range, and the deadlines of a connection.
use ksuite_mail.Common.{
  ℕ, ◌+◌, ◌-◌, ◌≤◌, ◌<◌, ◌&&◌, Option, none, some, ltb, ◌==◌, if◌then◌else◌, arith, List,
}
use ksuite_mail.Common.Ints.{ℤ, pos, negsuc, positive, pos_part}
use ksuite_mail.Mail.{UidRange}
use ksuite_mail.Refresh.Uids.{to_uid, sort_uids}

-- uidRangeSet: the bounds given to AddRange of go-imap, where 0 as the end is `*`.
unfoldable pub uid_range_set : UidRange → Option (ℕ × ℕ)
uid_range_set scope =
    if scope.min == 0 && scope.max == 0
    then none
    else let start = to_uid scope.min in
      let stop = to_uid scope.max in
      if start == 0 && stop == 0 then none else some (if start == 0 then 1 else start, stop)

-- toMailUIDs, where an imap.UID is a uint32 as a mail.UID is.
unfoldable pub to_mail_uids : List ℕ → List ℕ
unfolding sort_uids
to_mail_uids uids = sort_uids uids

-- Times are nanoseconds since the zero time, which stands for no deadline.
unfoldable pub cap_deadline : ℕ → ℕ → ℕ
cap_deadline next max =
    if max == 0 then next else if next == 0 then max else if ltb max next then max else next

abbrev pub default_timeout : ℕ
default_timeout = 20_000_000_000

abbrev pub effective_timeout : ℤ → ℕ
effective_timeout timeout = if positive timeout then pos_part timeout else default_timeout

-- `dial`: the timeout of the dialer. The clock is read once.
unfoldable pub dialer_timeout : ℕ → ℤ → Option ℕ → ℕ
dialer_timeout now timeout none = effective_timeout timeout
dialer_timeout now timeout (some deadline) =
    let remaining = deadline - now in
    if ltb 0 remaining && ltb remaining (effective_timeout timeout)
    then remaining
    else effective_timeout timeout

-- `dial`: the deadline of the connection.
unfoldable pub connection_deadline : ℕ → ℤ → Option ℕ → ℕ
connection_deadline now timeout none = now + effective_timeout timeout
connection_deadline now timeout (some deadline) =
    let own = now + effective_timeout timeout in if ltb deadline own then deadline else own

-- What SetDeadline, SetReadDeadline and SetWriteDeadline put on the connection when they are asked for
-- `next`.
unfoldable pub set_deadline : ℕ → ℤ → Option ℕ → ℕ → ℕ
unfolding cap_deadline connection_deadline
set_deadline now timeout ctx_deadline next =
    cap_deadline next (connection_deadline now timeout ctx_deadline)

abbrev pub WithinContext : ℕ → Option ℕ → Type 0
WithinContext d none = Unit {0}
WithinContext d (some deadline) = d ≤ deadline

-- The deadline of a context is not the zero time.
abbrev pub IsNonzero : Option ℕ → Type 0
IsNonzero none = Unit {0}
IsNonzero (some deadline) = 0 < deadline

effective_timeout_pos : (timeout : ℤ) → 0 < effective_timeout timeout
effective_timeout_pos (pos n) = ground arith
effective_timeout_pos (negsuc n) = omega arith

connection_deadline_pos :
    (now : ℕ) (timeout : ℤ) (ctx_deadline : Option ℕ)
    → IsNonzero ctx_deadline
    → 0 < connection_deadline now timeout ctx_deadline
unfolding connection_deadline
connection_deadline_pos now timeout none h = omega (arith, effective_timeout_pos timeout)
connection_deadline_pos now timeout (some d) h = ground (arith, effective_timeout_pos timeout)

connection_deadline_le :
    (now : ℕ) (timeout : ℤ) (ctx_deadline : Option ℕ)
    → let d = connection_deadline now timeout ctx_deadline in
      (d ≤ now + effective_timeout timeout) × WithinContext d ctx_deadline
unfolding connection_deadline
connection_deadline_le now timeout none = (omega arith, tt)
connection_deadline_le now timeout (some d) = ground arith

cap_deadline_bounds :
    (next max : ℕ) → 0 < max → (0 < cap_deadline next max) × (cap_deadline next max ≤ max)
unfolding cap_deadline
cap_deadline_bounds next max h = ground arith

WithinContext-le : (d e : ℕ) (o : Option ℕ) → d ≤ e → WithinContext e o → WithinContext d o
WithinContext-le d e none l w = tt
WithinContext-le d e (some x) l w = omega arith

-- Unless the context has the zero time for its deadline, a connection has a deadline, whatever is asked
-- for: at most the timeout after its start, and at most the deadline of the context, if it has one.
pub set_deadline_bounds :
    (now : ℕ) (timeout : ℤ) (ctx_deadline : Option ℕ) (next : ℕ)
    → IsNonzero ctx_deadline
    → let d = set_deadline now timeout ctx_deadline next in
      (0 < d) × (d ≤ now + effective_timeout timeout) × WithinContext d ctx_deadline
unfolding set_deadline
set_deadline_bounds now timeout ctx_deadline next h =
    let end = connection_deadline now timeout ctx_deadline in
    let bounds =
      cap_deadline_bounds next end (connection_deadline_pos now timeout ctx_deadline h) in
    let (own, ctx) = connection_deadline_le now timeout ctx_deadline in
    (bounds.0, omega (arith, bounds.1, own), WithinContext-le _ end ctx_deadline bounds.1 ctx)
