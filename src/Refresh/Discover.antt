-- ===== src/Refresh/Discover.antt =====
-- internal/refresh/refresh.go: the candidates of a folder.
use ksuite_mail.Common.{
  ℕ, ◌+◌, ◌-◌, Bool, true, false, not, ◌&&◌, List, [], ◌∷◌, ◌++◌, Result, ok, ◌>>=◌, ltb,
  if◌then◌else◌, drop, length, Text, codes, same,
}
use ksuite_mail.Strings.{Platform, trim_space, to_lower, is_empty}
use ksuite_mail.Mail.{Account, UidRange, policy_domain}
use ksuite_mail.Refresh.Uids.{dedupe_uids, CandidateDiscovery}
use ksuite_mail.Refresh.Source.{Source, SourceError}

-- The scope of the search, and whether it covers the folder.
abbrev pub scope_of : ℕ → ℕ → UidRange × Bool
scope_of uid_next max_candidates =
    if ltb 0 max_candidates && ltb (max_candidates + 1) uid_next
    then (record { min = uid_next - max_candidates; max = uid_next }, false)
    else (record { min = 0; max = uid_next }, true)

-- The last `max_candidates` of the UIDs found, if there are more.
abbrev pub capped : ℕ → UidRange × Bool → List ℕ → CandidateDiscovery
capped max_candidates (scope, complete) uids =
    if ltb 0 max_candidates && ltb max_candidates (length uids)
    then record {
      uids = drop (length uids - max_candidates) uids;
      scope = scope;
      complete = false;
      use_scope_bounds = not complete;
    }
    else record { uids = uids; scope = scope; complete = complete; use_scope_bounds = not complete }

module _ (p : Platform) (src : Source) (account : Account) (folder : Text) (scope : UidRange) where
  -- The loop over the domains, for one header.
  unfoldable pub search_domains : Text → List Text → Result SourceError (List ℕ)
  search_domains header [] = ok []
  search_domains header (domain ∷ domains) =
      let value = trim_space domain in
      let rest = search_domains header domains in
      if is_empty value then rest else do
        uids ← src.search_allowed account folder header (to_lower p value) scope
        more ← rest
        ok (uids ++ more)

  unfoldable pub search_headers : List Text → List Text → Result SourceError (List ℕ)
  unfolding search_domains
  search_headers [] domains = ok []
  search_headers (header ∷ headers) domains = do
    uids ← search_domains header domains
    more ← search_headers headers domains
    ok (uids ++ more)

abbrev pub address_headers : List Text
address_headers = codes "From" ∷ codes "To" ∷ codes "Cc" ∷ codes "Bcc" ∷ []

unfoldable pub discover_candidates :
    Platform → Source → Account → Text → ℕ → ℕ → Result SourceError CandidateDiscovery
unfolding search_headers dedupe_uids
discover_candidates p src account folder uid_next max_candidates =
    let scoped = scope_of uid_next max_candidates in
    if not (same account.policy policy_domain)
    then (do uids ← src.list_uids account folder scoped.0; ok (capped max_candidates scoped uids))
    else (do
      found ← search_headers p src account folder scoped.0 address_headers account.domains
      ok (capped max_candidates scoped (dedupe_uids found)))
