-- ===== src/Refresh/Allowed.antt =====
-- internal/refresh/refresh.go: the steps of a refresh, the fingerprint of a policy, and policyAllowedUIDs.
use ksuite_mail.Common.{
  ℕ, false, not, Option, none, some, List, [], ◌∷◌, ◌++◌, Result, ◌==◌, if◌then◌else◌, Text, codes,
  same,
}
use ksuite_mail.Strings.{Platform, trim_space, to_lower, is_empty, join}
use ksuite_mail.Mail.{Account, MessageHeaders, MessageEnvelope, policy_domain}
use ksuite_mail.Policy.{domain_match}
use ksuite_mail.Actions.{Action, pure, lift, ◌>>=◌, with_error}
use ksuite_mail.Cache.Stamp.{text_lt}
use ksuite_mail.Cache.Session.{Repository, Db}
use ksuite_mail.Cache.Reads.{sort_by}
use ksuite_mail.Refresh.Uids.{sort_uids}
use ksuite_mail.Refresh.Source.{Source, SourceError, RefreshError, local_cache, remote}

abbrev pub Step : Type 0 → Type 0
Step A = Action Repository RefreshError A

-- `return localCacheError{err: err}` on an error of the cache.
abbrev pub cached : {A : Type 0} → Db A → Step A
cached m = with_error local_cache m

-- `return err` on an error of the source.
abbrev pub ask : {A : Type 0} → Result SourceError A → Step A
ask r = with_error remote (lift r)

abbrev pub default_snippet_bytes : ℕ
default_snippet_bytes = 512

-- The normalized domains that are not empty.
unfoldable pub fingerprint_domains : Platform → List Text → List Text
fingerprint_domains p [] = []
fingerprint_domains p (d ∷ ds) =
    let domain = to_lower p (trim_space d) in
    let rest = fingerprint_domains p ds in if is_empty domain then rest else domain ∷ rest

unfoldable pub policy_fingerprint : Platform → Account → Text
unfolding fingerprint_domains sort_by join
policy_fingerprint p account =
    account.policy
    ++ b':' ∷ join (codes ",") (sort_by text_lt (fingerprint_domains p account.domains))

-- The map from UIDs to reasons; the entry set last comes first.
abbrev pub Reasons : Type 0
Reasons = List (ℕ × Text)

unfoldable pub find_reason : Reasons → ℕ → Option Text
find_reason [] uid = none
find_reason ((u, reason) ∷ rest) uid = if u == uid then some reason else find_reason rest uid

unfoldable pub set_reasons : Text → List ℕ → Reasons → Reasons
set_reasons reason [] reasons = reasons
set_reasons reason (uid ∷ uids) reasons = set_reasons reason uids ((uid, reason) ∷ reasons)

-- The envelope that the policy sees of a message whose headers alone are fetched.
abbrev pub header_envelope : MessageHeaders → MessageEnvelope
header_envelope h = record {
  uid = h.uid;
  message_id = [];
  thread_key = [];
  subject = [];
  from = h.from;
  to = h.to;
  cc = h.cc;
  bcc = h.bcc;
  date = 0;
  flags = [];
  snippet = [];
  body_preview = [];
  has_attachments = false;
  content_hash = [];
}

-- The loop over the headers.
unfoldable pub allow_headers :
    Platform → Account → List MessageHeaders → List ℕ → Reasons → List ℕ × Reasons
allow_headers p account [] out reasons = (out, reasons)
allow_headers p account (h ∷ hs) out reasons =
    let (allowed, reason) = domain_match p account (header_envelope h) in
    let refused = allow_headers p account hs out reasons in
    let passed = allow_headers p account hs (out ++ h.uid ∷ []) ((h.uid, reason) ∷ reasons) in
    if not allowed then refused else passed

abbrev pub sort_allowed : List ℕ × Reasons → List ℕ × Reasons
sort_allowed (out, reasons) = (sort_uids out, reasons)

unfoldable pub policy_allowed_uids :
    Platform → Source → Account → Text → List ℕ → Step (List ℕ × Reasons)
unfolding set_reasons allow_headers sort_uids ◌>>=◌
policy_allowed_uids p src account folder uids =
    if is_empty uids
    then pure ([], [])
    else if not (same account.policy policy_domain)
    then pure (uids, set_reasons (codes "policy_full") uids [])
    else (do
      headers ← ask (src.fetch_headers account folder uids)
      pure (sort_allowed (allow_headers p account headers [] [])))
