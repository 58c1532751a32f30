-- ===== src/Bootstrap/Files.antt =====
-- internal/bootstrap and internal/config/document.go: the loading and the writing of config.toml and of
-- secrets.json.
use ksuite_mail.Common.{
  Bool, true, false, Option, none, some, List, [], ◌∷◌, Result, ok, err, if◌then◌else◌, Text, codes,
  same,
}
use ksuite_mail.Common.Ints.{pos, int_eq}
use ksuite_mail.Mail.{Config}
use ksuite_mail.Settings.{Problem, validate}
use ksuite_mail.Secrets.{not_exist, permission, other_file_error, Store}
use ksuite_mail.Actions.{lift, ◌>>=◌, ◌>>◌}
use ksuite_mail.Layout.{config_file, secrets_file, config_file_spec, secrets_file_spec}
use ksuite_mail.Bootstrap.Host.{
  Boot, BootError, Outside, read_file, write_file_atomic, normalize_perms, malformed_config,
  marshal_error, invalid_config, malformed_secrets, unsupported_version, os_error,
}

-- Starter
abbrev pub starter : Config
starter = record { default_limit = pos 25; cache_ttl = codes "90d"; accounts = [] }

-- newSecretStore
abbrev pub new_secret_store : Store
new_secret_store = record { version = pos 1; secrets = [] }

-- Whether an error is os.ErrNotExist.
abbrev pub is_missing : BootError → Bool
is_missing (os_error not_exist) = true
is_missing (os_error permission) = false
is_missing (os_error other_file_error) = false
is_missing _ = false

-- The value of a file that is there, and the one that stands for a file that is not, each with whether
-- the file existed.
abbrev pub or_fresh :
    {A : Type 0}
    → (Text → Result BootError A)
    → A
    → Result BootError Text
    → Result BootError (A × Bool)
or_fresh parse fresh (err e) = if is_missing e then ok (fresh, false) else err e
or_fresh parse fresh (ok text) = elim (parse text) [ ok a ↦ ok (a, true) | err e ↦ err e ]

abbrev pub valid : Config → List Problem → Result BootError Config
valid cfg [] = ok cfg
valid cfg (x ∷ xs) = err (invalid_config (x ∷ xs))

abbrev pub decoded_config : Option Config → Result BootError Config
decoded_config none = err malformed_config
decoded_config (some cfg) = valid cfg (validate cfg)

abbrev pub decoded_store : Option Store → Result BootError Store
decoded_store none = err malformed_secrets
decoded_store (some s) = if int_eq s.version (pos 1) then ok s else err unsupported_version

module _ (o : Outside) where
  -- loadOrSeedConfig
  unfoldable pub load_or_seed_config : Boot (Config × Bool)
  load_or_seed_config h =
      let (r, h') = read_file o config_file h in
      (or_fresh (λ text. decoded_config (o.decode_config text)) starter r, h')

  -- loadOrInitSecrets, with loadSecretStore
  unfoldable pub load_or_init_secrets : Boot (Store × Bool)
  load_or_init_secrets h =
      let (r, h') = read_file o secrets_file h in
      (or_fresh (λ text. decoded_store (o.decode_secrets text)) new_secret_store r, h')

  -- writeSecretStore, and the permissions
  unfoldable pub write_secret_store : Store → Boot (Unit {0})
  write_secret_store store = do
    write_file_atomic o secrets_file (o.encode_secrets store) secrets_file_spec.mode
    normalize_perms o secrets_file_spec

  abbrev pub encoded : Option Text → Result BootError Text
  encoded none = err marshal_error
  encoded (some text) = ok text

  -- The writing of a configuration, and the permissions
  unfoldable pub write_config : Option Text → Boot (Unit {0})
  write_config text = do
    contents ← lift (encoded text)
    write_file_atomic o config_file contents config_file_spec.mode
    normalize_perms o config_file_spec

-- `store.Secrets[key] = secret`
unfoldable pub insert_secret : Text → Text → List (Text × Text) → List (Text × Text)
insert_secret key secret [] = (key, secret) ∷ []
insert_secret key secret ((k, v) ∷ rest) =
    if same k key then (key, secret) ∷ rest else (k, v) ∷ insert_secret key secret rest
