-- ===== src/Layout.antt =====
-- internal/layout/layout.go: the paths, modes and owners of the deployment. A mode is a number of nine
-- bits; the octal digits are written as their weights.
use ksuite_mail.Common.{ℕ, ◌+◌, ◌*◌, List, [], ◌∷◌, Text, codes}

pub record Owner : Type 0 where
  pub user : Text
  pub group : Text

pub record DirSpec : Type 0 where
  pub path : Text
  pub mode : ℕ
  pub owner : Owner

pub record FileSpec : Type 0 where
  pub path : Text
  pub mode : ℕ
  pub owner : Owner

-- 0ugo in octal
abbrev pub octal : ℕ → ℕ → ℕ → ℕ
octal u g o = u * 64 + g * 8 + o

abbrev pub service_user : Text
service_user = codes "ksuite-mail"

abbrev pub service_group : Text
service_group = codes "ksuite-mail"

abbrev pub service_home : Text
service_home = codes "/var/lib/ksuite-mail"

abbrev pub service_shell : Text
service_shell = codes "/usr/sbin/nologin"

abbrev pub config_dir : Text
config_dir = codes "/etc/ksuite-mail"

abbrev pub config_file : Text
config_file = codes "/etc/ksuite-mail/config.toml"

abbrev pub secrets_file : Text
secrets_file = codes "/etc/ksuite-mail/secrets.json"

abbrev pub state_dir : Text
state_dir = codes "/var/lib/ksuite-mail"

abbrev pub socket_path : Text
socket_path = codes "/run/ksuite-mail.sock"

abbrev pub installed_daemon : Text
installed_daemon = codes "/usr/local/bin/ksuite-maild"

abbrev pub systemd_unit_dir : Text
systemd_unit_dir = codes "/etc/systemd/system"

abbrev pub service_unit : Text
service_unit = codes "ksuite-mail.service"

abbrev pub socket_unit : Text
socket_unit = codes "ksuite-mail.socket"

-- Dirs
abbrev pub dirs : List DirSpec
dirs =
    record {
      path = config_dir;
      mode = octal 7 5 0;
      owner = record { user = codes "root"; group = service_group };
    }
    ∷ record {
      path = state_dir;
      mode = octal 7 0 0;
      owner = record { user = service_user; group = service_group };
    }
    ∷ []

-- ConfigFileSpec
abbrev pub config_file_spec : FileSpec
config_file_spec = record {
  path = config_file;
  mode = octal 6 4 0;
  owner = record { user = codes "root"; group = service_group };
}

-- SecretsFileSpec
abbrev pub secrets_file_spec : FileSpec
secrets_file_spec = record {
  path = secrets_file;
  mode = octal 6 0 0;
  owner = record { user = service_user; group = codes "root" };
}
