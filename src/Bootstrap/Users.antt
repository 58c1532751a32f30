-- ===== src/Bootstrap/Users.antt =====
-- internal/bootstrap/bootstrap.go: the access group and the service user. The user database is a
-- parameter; its errors are not told apart.
use ksuite_mail.Common.{
  ℕ, Bool, true, false, not, ◌&&◌, Result, ok, err, leb, if◌then◌else◌, Text, codes, same,
}
use ksuite_mail.Common.Ints.{ℤ, positive, pos_part}
use ksuite_mail.Strings.{trim_space, is_empty}
use ksuite_mail.Actions.{for_each}
use ksuite_mail.Layout.{service_user, service_home, service_shell, dirs}
use ksuite_mail.Bootstrap.Host.{
  Boot, BootError, Outside, create_directory, group_unknown, root_group, no_group, user_unknown,
  user_not_created, not_dedicated, wrong_home,
}

pub record UserInfo : Type 0 where
  pub uid : ℤ
  pub home_dir : Text

-- UserProvisioner
pub record UserProvisioner : Type 0 where
  pub user_exists : Text → Result (Unit {0}) Bool
  pub ensure_system_user : Text → Text → Text → Result (Unit {0}) (Unit {0})
  pub primary_group_name : Text → Result (Unit {0}) Text
  pub lookup_user : Text → Result (Unit {0}) UserInfo

-- The error of a call, by the name that the run gives it.
abbrev pub named : {A : Type 0} → BootError → Result (Unit {0}) A → Result BootError A
named e (ok a) = ok a
named e (err _) = err e

abbrev pub derived_group : Result (Unit {0}) Text → Result BootError Text
derived_group (err _) = err group_unknown
derived_group (ok group) =
    if same group (codes "root")
    then err root_group
    else if is_empty group
    then err no_group
    else ok group

module _ (users : UserProvisioner) where
  -- resolveAccessGroup
  unfoldable pub resolve_access_group : Text → Text → Result BootError Text
  resolve_access_group access_group invoking_user =
      if not (is_empty (trim_space access_group))
      then ok (trim_space access_group)
      else if not (is_empty (trim_space invoking_user))
      then derived_group (users.primary_group_name (trim_space invoking_user))
      else err no_group

  -- The conventional bound of the uids of system accounts.
  abbrev pub system_uid_max : ℕ
  system_uid_max = 1000

  abbrev pub checked_user : UserInfo → Result BootError (Unit {0})
  checked_user info =
      if positive info.uid && leb system_uid_max (pos_part info.uid)
      then err not_dedicated
      else if not (is_empty info.home_dir) && not (same info.home_dir service_home)
      then err wrong_home
      else ok tt

  abbrev pub checked_lookup : Result (Unit {0}) UserInfo → Result BootError (Unit {0})
  checked_lookup (err _) = err user_unknown
  checked_lookup (ok info) = checked_user info

  -- verifyDedicatedServiceUser
  unfoldable pub verify_dedicated_service_user : Result BootError (Unit {0})
  verify_dedicated_service_user = checked_lookup (users.lookup_user service_user)

  abbrev pub created : Result BootError (Unit {0}) → Bool → Result BootError Bool
  created (err e) b = err e
  created (ok _) b = ok b

  abbrev pub ensured : Result (Unit {0}) Bool → Result BootError Bool
  ensured (err _) = err user_unknown
  ensured (ok true) = created verify_dedicated_service_user false
  ensured (ok false) =
      created
        (named user_not_created (users.ensure_system_user service_user service_home service_shell))
        true

  -- ensureServiceUser: whether the user was created.
  unfoldable pub ensure_service_user : Result BootError Bool
  ensure_service_user = ensured (users.user_exists service_user)

module _ (o : Outside) where
  -- createDirectories
  unfoldable pub create_directories : Boot (Unit {0})
  create_directories = for_each tt (create_directory o) dirs
