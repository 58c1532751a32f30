-- ===== src/Daemon/Scope.antt =====
-- internal/daemon/daemon.go: the status, the times and the warnings of a response, as far as the last
-- refresh concerns what was asked for.
use ksuite_mail.Common.{
  Bool, true, false, not, ◌&&◌, ◌||◌, List, [], ◌∷◌, ◌==◌, if◌then◌else◌, retain, any, Text, same,
}
use ksuite_mail.Strings.{trim_space, is_empty}
use ksuite_mail.Mail.{CachedMessage}
use ksuite_mail.Api.{Status, RefreshMeta, read_status}
use ksuite_mail.Refresh.Cycle.{Warning, RefreshResult}

-- strings.EqualFold(v, "all"); no rune but these folds to one of the word.
abbrev pub folds_to_all : Text → Bool
folds_to_all [] = false
folds_to_all (a ∷ []) = false
folds_to_all (a ∷ b ∷ []) = false
folds_to_all (a ∷ b ∷ c ∷ []) =
    (a == b'a' || a == b'A') && (b == b'l' || b == b'L') && (c == b'l' || c == b'L')
folds_to_all (a ∷ b ∷ c ∷ d ∷ rest) = false

-- accountFilter: the empty text stands for every account.
unfoldable pub account_filter : Text → Text
unfolding trim_space
account_filter v =
    let trimmed = trim_space v in if is_empty trimmed || folds_to_all trimmed then [] else trimmed

-- Whether the loop body of refreshAffectsScope returns true.
unfoldable pub warning_affects : Text → Text → Warning → Bool
warning_affects account folder warning =
    if is_empty warning.account_id
    then true
    else if not (is_empty account) && not (same warning.account_id account)
    then false
    else not
        (not (is_empty folder) && not (is_empty warning.folder) && not (same warning.folder folder))

unfoldable pub affects_from : Text → Text → List Warning → Bool
unfolding warning_affects
affects_from account folder [] = false
affects_from account folder (w ∷ ws) =
    if warning_affects account folder w then true else affects_from account folder ws

unfoldable pub refresh_affects_scope : List Warning → Text → Text → Bool
unfolding affects_from account_filter trim_space
refresh_affects_scope warnings requested_account requested_folder =
    affects_from (account_filter requested_account) (trim_space requested_folder) warnings
    || is_empty warnings

unfoldable pub in_scope : Text → Text → Warning → Bool
in_scope account folder w =
    if not (is_empty w.account_id) && not (is_empty account) && not (same w.account_id account)
    then false
    else not (not (is_empty w.folder) && not (is_empty folder) && not (same w.folder folder))

unfoldable pub warnings_for_scope : List Warning → Text → Text → List Warning
unfolding in_scope account_filter trim_space
warnings_for_scope warnings requested_account requested_folder =
    retain (in_scope (account_filter requested_account) (trim_space requested_folder)) warnings

-- A warning about the message's folder, or about its whole account.
abbrev pub is_about : Warning → CachedMessage → Bool
is_about w msg = same w.account_id msg.account_id && (is_empty w.folder || same w.folder msg.folder)

unfoldable pub warnings_for_messages : List Warning → List CachedMessage → List Warning
warnings_for_messages warnings messages =
    retain (λ w. is_empty w.account_id || any (is_about w) messages) warnings

unfoldable pub scoped_refresh_meta : RefreshMeta → List Warning → RefreshMeta
scoped_refresh_meta meta [] = meta
scoped_refresh_meta meta (w ∷ []) = record meta {
  last_successful_refresh_at = w.last_successful_refresh_at;
}
scoped_refresh_meta meta (w ∷ v ∷ ws) = meta

-- What readEnvelopeForScope and readEnvelopeForMessages return.
pub record ReadEnvelope : Type 0 where
  pub status : Status
  pub meta : RefreshMeta
  pub warnings : List Warning

-- The failure, if any, is elsewhere.
abbrev pub unaffected : RefreshMeta → Bool → ReadEnvelope
unaffected meta local_found = record {
  status = read_status (record meta { remote_ok = true }) false local_found;
  meta = record meta { remote_ok = true };
  warnings = [];
}

abbrev pub affected : RefreshResult → List Warning → Bool → ReadEnvelope
affected res warnings local_found =
    let meta = scoped_refresh_meta res.meta warnings in
    record { status = read_status meta res.partial local_found; meta = meta; warnings = warnings }

unfoldable pub read_envelope_for_scope : RefreshResult → Text → Text → Bool → ReadEnvelope
unfolding refresh_affects_scope warnings_for_scope scoped_refresh_meta read_status
read_envelope_for_scope res account folder local_found =
    if not res.partial || refresh_affects_scope res.warnings account folder
    then affected res (warnings_for_scope res.warnings account folder) local_found
    else unaffected res.meta local_found

unfoldable pub read_envelope_for_messages : RefreshResult → List CachedMessage → ReadEnvelope
unfolding read_envelope_for_scope warnings_for_messages
read_envelope_for_messages res messages =
    if is_empty messages
    then read_envelope_for_scope res [] [] false
    else if any (λ msg. refresh_affects_scope res.warnings msg.account_id msg.folder) messages
    then affected res (warnings_for_messages res.warnings messages) true
    else unaffected res.meta true
