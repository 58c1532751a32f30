-- ===== src/Bootstrap/Run.antt =====
-- internal/bootstrap/bootstrap.go and internal/systemd/units.go: the units, and the whole run.
use ksuite_mail.Common.{
  Bool, true, false, Option, none, some, List, [], ◌∷◌, ◌++◌, Result, ok, err, if◌then◌else◌, Text,
  codes,
}
use ksuite_mail.Strings.{trim_space, is_empty}
use ksuite_mail.Actions.{pure, raise, lift, ◌>>=◌, ◌>>◌}
use ksuite_mail.Layout.{
  config_file, service_user, service_group, state_dir, socket_path, installed_daemon,
  systemd_unit_dir, service_unit, socket_unit, octal,
}
use ksuite_mail.Bootstrap.Host.{
  Boot, BootError, Outside, call, write_file_atomic, missing_dependencies, blank_group,
}
use ksuite_mail.Bootstrap.Users.{
  UserProvisioner, resolve_access_group, ensure_service_user, create_directories,
}
use ksuite_mail.Bootstrap.Accounts.{
  AccountSeed, Prompter, build_account, ensure_boundary_config, ensure_boundary_secrets,
  ensure_account,
}

-- A line of a unit.
abbrev pub line : Text → Text
line t = t ++ (0x0a ∷ [])

-- renderService
unfoldable pub render_service : Text
render_service =
    line (codes "[Unit]")
    ++ (line (codes "Description=ksuite-mail local Infomaniak K-Mail gateway daemon")
        ++ (line (codes "Documentation=https://github.com/dothackerman/ksuite-mail")
            ++ (line (codes "After=network-online.target")
                ++ (line (codes "Wants=network-online.target")
                    ++ (line []
                        ++ (line (codes "[Service]")
                            ++ (line (
                                  codes "ExecStart="
                                  ++ installed_daemon
                                  ++ codes " --config "
                                  ++ config_file)
                                ++ (line (codes "User=" ++ service_user)
                                    ++ (line (codes "Group=" ++ service_group)
                                        ++ (line []
                                            ++ (line (
                                                  codes
                                                    "# Defense-in-depth hardening (NFR-OPS-003).")
                                                ++ (line (codes "NoNewPrivileges=true")
                                                    ++ (line (codes "PrivateTmp=true")
                                                        ++ (line (codes "ProtectSystem=strict")
                                                            ++ (line (codes "ProtectHome=true")
                                                            ++ (line (
                                                            codes
                                                            "# Only the persistent cache is writable; the socket lives in /run and is")
                                                            ++ (line (
                                                            codes
                                                            "# created and owned by systemd from the .socket unit (Shape A), so the daemon")
                                                            ++ (line (
                                                            codes
                                                            "# needs no writable runtime directory of its own.")
                                                            ++ (line
                                                            (codes "ReadWritePaths=" ++ state_dir)
                                                            ++ (line (codes "UMask=0077")
                                                            ++ (line []
                                                            ++ (line (codes "[Install]")
                                                            ++ line (
                                                            codes
                                                            "WantedBy=multi-user.target")))))))))))))))))))))))

-- renderSocket
unfoldable pub render_socket : Text → Text
render_socket access_group =
    line (codes "[Unit]")
    ++ (line (codes "Description=ksuite-mail daemon Unix domain socket")
        ++ (line []
            ++ (line (codes "[Socket]")
                ++ (line (codes "ListenStream=" ++ socket_path)
                    ++ (line (codes "SocketUser=" ++ service_user)
                        ++ (line (codes "SocketGroup=" ++ access_group)
                            ++ (line (codes "SocketMode=0660")
                                ++ (line []
                                    ++ (line (codes "[Install]")
                                        ++ line (codes "WantedBy=sockets.target"))))))))))

-- Render
unfoldable pub render : Text → Result BootError (Text × Text)
render access_group =
    if is_empty (trim_space access_group)
    then err blank_group
    else ok (render_service, render_socket access_group)

pub record Options : Type 0 where
  pub access_group : Text
  pub invoking_user : Text
  pub install_units : Bool
  pub account : Option AccountSeed

pub record Summary : Type 0 where
  pub access_group : Text
  pub service_user_created : Bool
  pub config_created : Bool
  pub secrets_created : Bool
  pub account_added : Text
  pub units_installed : Bool
  pub unit_paths : List Text

abbrev pub unit_path : Text → Text
unit_path name = systemd_unit_dir ++ codes "/" ++ name

module _ (o : Outside) where
  -- The units are written to the systemd directory, or printed.
  unfoldable pub install_units : Bool → Text × Text → Boot Bool
  install_units false units = pure false
  install_units true (service, socket) = do
    call o
    write_file_atomic o (unit_path service_unit) service (octal 6 4 4)
    write_file_atomic o (unit_path socket_unit) socket (octal 6 4 4)
    pure true

  -- handleUnits
  unfoldable pub handle_units : Options → Text → Boot Bool
  handle_units opts access_group = do
    units ← lift (render access_group)
    install_units opts.install_units units

  -- The boundary without an account, and with the seed of one: whether the configuration and the
  -- secrets were created, and the id of the account.
  unfoldable pub ensure_boundary : Prompter → Option AccountSeed → Boot (Bool × Bool × Text)
  ensure_boundary prompt none = do
    config_created ← ensure_boundary_config o
    secrets_created ← ensure_boundary_secrets o
    pure (config_created, secrets_created, [])
  ensure_boundary prompt (some seed) = do
    acct ← lift (build_account seed)
    created ← ensure_account o prompt acct
    pure (created.0, created.1, acct.id)

  unfoldable pub run_with : UserProvisioner → Prompter → Options → Boot Summary
  run_with users prompt opts = do
    access_group ← lift (resolve_access_group users opts.access_group opts.invoking_user)
    user_created ← lift (ensure_service_user users)
    create_directories o
    created ← ensure_boundary prompt opts.account
    installed ← handle_units opts access_group
    pure (record {
      access_group = access_group;
      service_user_created = user_created;
      config_created = created.0;
      secrets_created = created.1;
      account_added = created.2;
      units_installed = installed;
      unit_paths = if installed then unit_path service_unit ∷ unit_path socket_unit ∷ [] else [];
    })

  -- Run, with the users and the prompter of Deps, and whether it has a Chowner.
  unfoldable pub run : Option UserProvisioner → Bool → Prompter → Options → Boot Summary
  run none chowner prompt opts = raise missing_dependencies
  run (some users) false prompt opts = raise missing_dependencies
  run (some users) true prompt opts = run_with users prompt opts
