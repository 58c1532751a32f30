-- ===== src/Daemon/Affected.antt =====
-- internal/daemon/daemon.go: the warnings that concern a request.
use ksuite_mail.Common.{
  ◌≡◌, refl, true, not, ◌||◌, inl, inr, Bool-cases, List, [], ◌∷◌, arith, retain, All, Text,
}
use ksuite_mail.Strings.{trim_space, is_empty}
use ksuite_mail.Refresh.Cycle.{Warning}
use ksuite_mail.Daemon.Scope.{
  account_filter, warning_affects, affects_from, refresh_affects_scope, in_scope,
  warnings_for_scope,
}

-- A warning about no account is about no folder.
abbrev pub IsPlaced : Warning → Type 0
IsPlaced w = is_empty w.account_id ≡ true → is_empty w.folder ≡ true

warning_affects-in_scope :
    (account folder : Text) (w : Warning)
    → IsPlaced w
    → warning_affects account folder w ≡ in_scope account folder w
unfolding warning_affects in_scope
warning_affects-in_scope account folder w placed = elim (Bool-cases (is_empty w.account_id)) [
  | inl e ↦ rw (e, placed e) refl
  | inr e ↦ ground (arith)
]

affects_from-retain :
    (account folder : Text) (ws : List Warning)
    → All IsPlaced ws
    → affects_from account folder ws ≡ not (is_empty (retain (in_scope account folder) ws))
unfolding affects_from
affects_from-retain account folder [] placed = refl
affects_from-retain account folder (w ∷ ws) (p, placed) =
    rw (warning_affects-in_scope account folder w p)
      (elim (Bool-cases (in_scope account folder w)) [
        | inl e ↦ rw e refl
        | inr e ↦ rw e (affects_from-retain account folder ws placed)
      ])

-- Where a warning about no account is about no folder either, the scope of a request counts as affected
-- by a refresh exactly if the refresh has no warning, or the request is shown one of its warnings.
pub refresh_affects_scope_lem :
    (warnings : List Warning) (account folder : Text)
    → All IsPlaced warnings
    → refresh_affects_scope warnings account folder
      ≡ (not (is_empty (warnings_for_scope warnings account folder)) || is_empty warnings)
unfolding refresh_affects_scope warnings_for_scope
refresh_affects_scope_lem warnings account folder placed =
    rw (affects_from-retain (account_filter account) (trim_space folder) warnings placed) refl
