-- ===== src/Refresh/Uids.antt =====
-- internal/refresh/refresh.go: lists of UIDs.
use ksuite_mail.Common.{
  ℕ, ◌%◌, ◌^◌, Bool, ◌&&◌, Option, none, some, List, [], ◌∷◌, ltb, ◌==◌, if◌then◌else◌, any,
}
use ksuite_mail.Mail.{UidRange}
use ksuite_mail.Cache.Writes.{has_uid}

-- sort.Slice by <
unfoldable pub insert_uid : ℕ → List ℕ → List ℕ
insert_uid u [] = u ∷ []
insert_uid u (v ∷ vs) = if ltb v u then v ∷ insert_uid u vs else u ∷ v ∷ vs

unfoldable pub sort_uids : List ℕ → List ℕ
unfolding insert_uid
sort_uids [] = []
sort_uids (u ∷ us) = insert_uid u (sort_uids us)

-- The loop over `uids` that keeps the first of each.
unfoldable pub unique_from : List ℕ → List ℕ → List ℕ
unique_from seen [] = []
unique_from seen (u ∷ us) =
    let old = unique_from seen us in
    let new = u ∷ unique_from (u ∷ seen) us in if has_uid seen u then old else new

unfoldable pub dedupe_uids : List ℕ → List ℕ
unfolding sort_uids unique_from
dedupe_uids uids = sort_uids (unique_from [] uids)

-- uidInSlice
abbrev pub uid_in_slice : List ℕ → ℕ → Bool
uid_in_slice uids needle = any (λ u. u == needle) uids

unfoldable pub bounds_from : ℕ → ℕ → List ℕ → ℕ × ℕ
bounds_from lo hi [] = (lo, hi)
bounds_from lo hi (u ∷ us) =
    bounds_from (if ltb u lo then u else lo) (if ltb hi u then u else hi) us

-- uidBounds: `none` is the panic of uids[0] on no UIDs.
unfoldable pub uid_bounds : List ℕ → Option (ℕ × ℕ)
unfolding bounds_from
uid_bounds [] = none
uid_bounds (u ∷ us) = some (bounds_from u u us)

pub record CandidateDiscovery : Type 0 where
  pub uids : List ℕ
  pub scope : UidRange
  pub complete : Bool
  pub use_scope_bounds : Bool

-- mail.UID(n), a uint32.
abbrev pub to_uid : ℕ → ℕ
to_uid n = n % 2 ^ 32

unfoldable pub observed_scope_bounds : CandidateDiscovery → List ℕ → Option (ℕ × ℕ)
unfolding uid_bounds
observed_scope_bounds discovered fallback =
    if discovered.use_scope_bounds && ltb 0 discovered.scope.min && ltb 0 discovered.scope.max
    then some (to_uid discovered.scope.min, to_uid discovered.scope.max)
    else uid_bounds fallback
