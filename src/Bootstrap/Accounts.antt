-- ===== src/Bootstrap/Accounts.antt =====
-- internal/bootstrap/bootstrap.go: the two files of the boundary, without and with an account.
use ksuite_mail.Common.{
  Bool, true, false, not, ◌&&◌, Option, none, some, List, [], ◌∷◌, ◌++◌, Result, ok, err, any,
  if◌then◌else◌, Text, codes, same,
}
use ksuite_mail.Common.Ints.{ℤ, pos}
use ksuite_mail.Strings.{is_empty}
use ksuite_mail.Mail.{Account, Config}
use ksuite_mail.Settings.{Problem, validate}
use ksuite_mail.Secrets.{Store, resolve}
use ksuite_mail.Actions.{pure, raise, lift, ◌>>=◌, ◌>>◌}
use ksuite_mail.Layout.{config_file_spec, secrets_file_spec}
use ksuite_mail.Bootstrap.Host.{
  Boot, BootError, Outside, normalize_perms, invalid_seed, invalid_config, already_present,
  no_prompter, prompt_failed, empty_password,
}
use ksuite_mail.Bootstrap.Files.{
  load_or_seed_config, load_or_init_secrets, write_secret_store, write_config, insert_secret,
}

pub record AccountSeed : Type 0 where
  pub id : Text
  pub email : Text
  pub host : Text
  pub port : ℤ
  pub tls : Bool
  pub username : Text
  pub policy : Text
  pub domains : List Text
  pub folders : List Text

-- secretKey
abbrev pub secret_key : Text → Text
secret_key account_id = codes "/ksuite-mail/" ++ account_id ++ codes "/password"

abbrev pub account_of : AccountSeed → Account
account_of s = record {
  id = s.id;
  email = s.email;
  host = s.host;
  port = s.port;
  tls = some s.tls;
  username = s.username;
  password_ref = record { source = codes "file"; provider = codes "local"; id = secret_key s.id };
  policy = s.policy;
  domains = s.domains;
  folders = s.folders;
}

abbrev pub checked_seed : Account → List Problem → Result BootError Account
checked_seed acct [] = ok acct
checked_seed acct (x ∷ xs) = err (invalid_seed (x ∷ xs))

-- buildAccount, with a seed
unfoldable pub build_account : AccountSeed → Result BootError Account
build_account s =
    let acct = account_of s in
    checked_seed acct
      (validate (record { default_limit = pos 0; cache_ttl = []; accounts = acct ∷ [] }))

-- PromptSecret by the text that it asks with; `none` is no prompter.
abbrev pub Prompter : Type 0
Prompter = Option (Text → Result (Unit {0}) Text)

abbrev pub asked : Result (Unit {0}) Text → Result BootError Text
asked (err _) = err prompt_failed
asked (ok secret) = if is_empty secret then err empty_password else ok secret

-- The credential, and the refusal of an empty one.
abbrev pub ask_secret : Prompter → Text → Result BootError Text
ask_secret none email = err no_prompter
ask_secret (some prompt) email = asked (prompt (codes "Mailbox password for " ++ email))

abbrev pub is_present : Option Text → Bool
is_present none = false
is_present (some secret) = true

abbrev pub has_account : Config → Text → Bool
has_account cfg id = any (λ (a : Account). same a.id id) cfg.accounts

abbrev pub checked_config : Config → List Problem → Result BootError Config
checked_config cfg [] = ok cfg
checked_config cfg (x ∷ xs) = err (invalid_config (x ∷ xs))

-- The configuration with the account in it.
unfoldable pub add_account : Account → Config → Result BootError Config
add_account acct cfg =
    if has_account cfg acct.id
    then ok cfg
    else let cfg' = record cfg { accounts = cfg.accounts ++ (acct ∷ []) } in
      checked_config cfg' (validate cfg')

module _ (o : Outside) where
  -- ensureBoundaryConfig: whether the file was created.
  unfoldable pub ensure_boundary_config : Boot Bool
  ensure_boundary_config = do
    loaded ← load_or_seed_config o
    (if loaded.1 then normalize_perms o config_file_spec else write_config o o.starter_document)
    pure (not loaded.1)

  -- ensureBoundarySecrets: whether the file was created.
  unfoldable pub ensure_boundary_secrets : Boot Bool
  ensure_boundary_secrets = do
    loaded ← load_or_init_secrets o
    (if loaded.1 then normalize_perms o secrets_file_spec else write_secret_store o loaded.0)
    pure (not loaded.1)

  module _ (prompt : Prompter) (acct : Account) where
    -- The end of ensureAccount: the secret is written, and then the configuration.
    unfoldable pub store_account : Config × Bool → Store × Bool → Text → Boot (Bool × Bool)
    store_account cfg store secret = do
      write_secret_store o
          (record store.0 { secrets = insert_secret acct.password_ref.id secret store.0.secrets })
      cfg' ← lift (add_account acct cfg.0)
      write_config o (o.encode_config cfg')
      pure (not cfg.1, not store.1)

    -- ensureAccount: whether the configuration and whether the secrets were created.
    unfoldable pub ensure_account : Boot (Bool × Bool)
    ensure_account = do
      cfg ← load_or_seed_config o
      store ← load_or_init_secrets o
      if has_account cfg.0 acct.id && is_present (resolve store.0 acct.password_ref.id)
          then raise already_present
          else (do secret ← lift (ask_secret prompt acct.email); store_account cfg store secret)
